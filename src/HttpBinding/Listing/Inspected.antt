-- ===== src/HttpBinding/Listing/Inspected.antt =====
-- ListTools against InspectTool of internal/httpbinding/httpbinding.go.
use mcpshim.Prelude.{
  ◌≡◌, refl, sym, ap, ◌∙◌, Bool, ◌||◌, none, some, List, [], ◌∷◌, map, any, Text, text_eq, is_some,
  any-sort_by, arith, inl, inr, Option-cases,
}
use mcpshim.Config.Types.{HttpTool, HttpRawTool, HttpService}
use mcpshim.HttpBinding.Calls.{raw_tool_name, raw_tool_named, find_tool}
use mcpshim.HttpBinding.Listing.{
  ToolInfo, tool_info, raw_info, unsorted_tools, list_tools, inspect_tool,
}

abbrev pub is_called : Text → ToolInfo → Bool
is_called name info = text_eq info.name name

module _ {N : Type 0} where
  any-tool_info :
      (service : HttpService N) (tools : List (HttpTool N)) (name : Text)
      → any (map (tool_info service) tools) (is_called name) ≡ is_some (find_tool tools name)
  unfolding find_tool tool_info
  any-tool_info service [] name = refl
  any-tool_info service (tool ∷ tools) name = ground (arith, any-tool_info service tools name)

  inspect_tool_raw :
      (service : HttpService N) (raw : HttpRawTool) (name : Text)
      → service.raw_tool ≡ some raw
      → is_some (inspect_tool service name)
        ≡ (text_eq (raw_tool_name raw) name || is_some (find_tool service.tools name))
  unfolding inspect_tool raw_tool_named
  inspect_tool_raw service raw name present = rw present (ground arith)

  inspect_tool_typed :
      (service : HttpService N) (name : Text)
      → service.raw_tool ≡ none
      → is_some (inspect_tool service name) ≡ is_some (find_tool service.tools name)
  unfolding inspect_tool raw_tool_named
  inspect_tool_typed service name absent = rw absent (ground arith)

  any-unsorted_raw :
      (service : HttpService N) (raw : HttpRawTool) (name : Text)
      → service.raw_tool ≡ some raw
      → any (unsorted_tools service) (is_called name)
        ≡ (text_eq (raw_tool_name raw) name || is_some (find_tool service.tools name))
  unfolding unsorted_tools raw_info
  any-unsorted_raw service raw name present =
      rw present
        (ap (λ b. text_eq (raw_tool_name raw) name || b) (any-tool_info service service.tools name))

  any-unsorted_typed :
      (service : HttpService N) (name : Text)
      → service.raw_tool ≡ none
      → any (unsorted_tools service) (is_called name) ≡ is_some (find_tool service.tools name)
  unfolding unsorted_tools
  any-unsorted_typed service name absent = rw absent (any-tool_info service service.tools name)

  -- ListTools lists a tool under a name exactly if InspectTool finds one under it.
  pub list_tools-inspect_tool :
      (service : HttpService N) (name : Text)
      → any (list_tools service) (is_called name) ≡ is_some (inspect_tool service name)
  unfolding list_tools
  list_tools-inspect_tool service name =
      any-sort_by (λ info. info.name) (is_called name) (unsorted_tools service)
      ∙ (elim (Option-cases service.raw_tool) [
        | inl absent ↦
            any-unsorted_typed service name absent ∙ sym (inspect_tool_typed service name absent)
        | inr (raw, present) ↦
            any-unsorted_raw service raw name present
            ∙ sym (inspect_tool_raw service raw name present)
      ])
