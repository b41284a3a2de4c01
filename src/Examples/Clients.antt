-- ===== src/Examples/Clients.antt =====
-- Arguments and names that the client reads.
use mcpshim.Prelude.{
  ℕ, ◌≡◌, refl, true, false, none, some, List, [], ◌∷◌, ◌++◌, map, all, Text, codes, Map, All, ok,
  has_byte, is_one_of, lookup, text_eq,
}
use mcpshim.Value.{end}
use mcpshim.Client.Aliases.{ServerNames, shell_quote, build_alias_targets}
use mcpshim.Client.Aliases.Quoting.{outside, read_word, read_word-shell_quote}
use mcpshim.Client.Aliases.Naming.{IsNamed, build_alias_targets-IsNamed}
use mcpshim.Client.Arguments.{CallArgs, dashes, parse_call_args, Literals, parse_dynamic}
use mcpshim.Client.Arguments.Passed.{pass, parse_call_args-pass, is_plain}
use mcpshim.Client.Arguments.Flags.{flag, put_all, IsStringFlag, parse_dynamic-flags}

shell_quote_example :
    read_word outside (shell_quote (codes "it's") ++ codes " x") ≡ some (codes "it's", codes " x")
shell_quote_example = read_word-shell_quote (codes "it's") (codes " x") refl

abbrev two_servers : List ServerNames
two_servers =
    record { name = codes "../9 a"; alias = [] }
    ∷ record { name = codes "b"; alias = codes "_9_a" }
    ∷ []

build_alias_targets_example : All IsNamed (build_alias_targets two_servers)
build_alias_targets_example = build_alias_targets-IsNamed two_servers

targets_run :
    map (λ t. t.sanitized) (build_alias_targets two_servers) ≡ codes "s_9_a" ∷ codes "s_9_a_2" ∷ []
unfolding build_alias_targets text_eq
targets_run = refl

abbrev first_args : List Text
first_args = codes "--server" ∷ codes "n" ∷ codes "--json" ∷ []

abbrev first_result : CallArgs
first_result = record {
  server = codes "n";
  tool = [];
  rest = [];
  help = false;
  parse_text_json = true;
}

first_run : parse_call_args first_args ≡ ok first_result
unfolding parse_call_args text_eq is_one_of
first_run = refl

first_plain : (all first_args is_plain) ≡ true
unfolding text_eq
first_plain = refl

parse_call_args_example :
    parse_call_args (first_args ++ (dashes ∷ codes "--help" ∷ []))
    ≡ ok (pass (codes "--help" ∷ []) first_result)
parse_call_args_example =
    parse_call_args-pass first_args (codes "--help" ∷ []) first_result first_plain first_run

abbrev text_types : Map Text
text_types = (codes "q", codes "string") ∷ []

abbrev text_flags : Map Text
text_flags = (codes "q", codes "--1") ∷ []

abbrev no_literals : Literals ℕ
no_literals = record {
  unmarshal = λ t. none;
  parse_int = λ t. some 1;
  parse_float = λ t. some 1;
  equal_fold = λ a b. false;
}

flags_plain : All (IsStringFlag text_types) text_flags
unfolding has_byte lookup text_eq
flags_plain = ((refl, refl), tt)

parse_dynamic_example :
    parse_dynamic no_literals text_types (map flag text_flags) end ≡ put_all text_flags end
parse_dynamic_example = parse_dynamic-flags no_literals text_types text_flags end flags_plain
