-- ===== src/HttpBinding/Arguments/Rendering.antt =====
-- A typed tool end to end: a template that the configuration accepted, rendered with arguments that
-- the tool accepted.
use mcpshim.Prelude.{◌+◌, ◌>>=◌, ◌≡◌, refl, ok, err, Option, none, some}
use mcpshim.Value.{Value, Fields, Numbers}
use mcpshim.Config.Types.{HttpTool}
use mcpshim.Config.Template.{validate_http_template}
use mcpshim.HttpBinding.Template.{
  RenderError, root_omitted, Rendered, render_root, render_template, max_template_depth,
}
use mcpshim.HttpBinding.Template.Faults.{
  IsArgumentFault, OnlyFaults, Supplies, render_template-OnlyFaults,
}
use mcpshim.HttpBinding.Arguments.{validate_typed_arguments}
use mcpshim.HttpBinding.Arguments.Effective.{validate_typed_arguments-supplies}

-- It succeeds, or fails at an argument, or because the whole is left out.
abbrev pub OnlyRootFaults : {A : Type 0} → Rendered A → Type 0
OnlyRootFaults (ok a) = Unit
OnlyRootFaults (err root_omitted) = Unit
OnlyRootFaults (err e) = IsArgumentFault e

module _ (n : Numbers) where
  accepted-Supplies :
      (tool : HttpTool n.Num) (args effective : Fields n.Num)
      → validate_typed_arguments n tool args ≡ ok effective
      → Supplies tool.inputs effective
  accepted-Supplies tool args effective h = record {
    at = λ name input found supplied.
        let (v, e, _) =
          validate_typed_arguments-supplies n tool args effective name input h found supplied in
        rw e refl;
  }

  fault-root : (e : RenderError) → IsArgumentFault e → OnlyRootFaults {A = Value n.Num} (err e)
  fault-root root_omitted h = tt
  fault-root _ h = h

  render_whole :
      (r : Rendered (Option (Value n.Num)))
      → OnlyFaults r
      → OnlyRootFaults (r >>= λ o. elim o [ none ↦ err root_omitted | some v ↦ ok v ])
  render_whole (ok none) h = tt
  render_whole (ok (some v)) h = tt
  render_whole (err e) h = fault-root e h

  -- Where the template of a tool passed the validation of the configuration and the tool accepts
  -- the arguments, rendering fails only at an argument that, with the depth of its place in the
  -- template, exceeds the depth limit, as any argument does at the deepest place; for a map or
  -- slice in a `$format` text; or where the template is left out as a whole. It asks for no
  -- argument that is missing, and no name or format of the template itself is wrong.
  pub render_root-OnlyRootFaults :
      (tool : HttpTool n.Num) (args effective : Fields n.Num) (template : Value n.Num)
      → validate_http_template tool.inputs template ≡ ok tt
      → validate_typed_arguments n tool args ≡ ok effective
      → OnlyRootFaults (render_root n template effective)
  unfolding render_root validate_http_template
  render_root-OnlyRootFaults tool args effective template valid accepted =
      render_whole (render_template n (max_template_depth + 1) effective template) (
        render_template-OnlyFaults n tool.inputs effective
          (accepted-Supplies tool args effective accepted) (max_template_depth + 1) template valid)
