-- ===== src/Terminal/State/Direct.antt =====
-- packages/protocol/src/terminal-policy.ts: the clone of a terminal state by recursion on the value.
use loop_platform_zhb.Base.{
  ℕ, suc, ◌+◌, JsString, true, not, List, [], ◌∷◌, length, ltb, if◌then◌else◌,
}
use loop_platform_zhb.Terminal.{is_pg_representable_text}
use loop_platform_zhb.Terminal.State.{
  JsValue, null, boolean, number, string, other, array, object, Items, nil, cons, hole, Props, end,
  prop, TerminalStateFailure, not_json, too_large, terminal_state_max_compact_utf8_bytes,
  string_bytes, boolean_bytes, items_onto, props_onto, overflows, comma,
}

-- A clone with its compact bytes, or the first failure.
pub data Clone : Type 0 where
  fails : TerminalStateFailure → Clone
  gives : JsValue → ℕ → Clone

-- A child's bytes are added to those of its parent, which goes on if they fit.
abbrev pub absorb : Clone → ℕ → (JsValue → ℕ → Clone) → Clone
absorb (fails f) used k = fails f
absorb (gives c b) used k = if overflows b used then fails too_large else k c (used + b)

abbrev pub key_bytes : JsString → ℕ → ℕ
key_bytes key index = comma index + string_bytes key + 1

abbrev pub key_clone : JsString → ℕ → ℕ → Clone → Clone
key_clone key index used rest =
    if not (is_pg_representable_text key)
    then fails not_json
    else if ltb terminal_state_max_compact_utf8_bytes (length key)
    then fails too_large
    else if overflows (key_bytes key index) used
    then fails too_large
    else rest

unfoldable mutual
  pub clone : JsValue → Clone
  clone null = gives null 4
  clone (boolean b) = gives (boolean b) (boolean_bytes b)
  clone (string s) =
      if not (is_pg_representable_text s)
      then fails not_json
      else if ltb terminal_state_max_compact_utf8_bytes (length s)
      then fails too_large
      else gives (string s) (string_bytes s)
  clone (number finite text) =
      if finite then gives (number finite text) (length text) else fails not_json
  clone other = fails not_json
  clone (array items) = clone_items items 0 [] 2
  clone (object plain props) =
      let inner = clone_props props 0 [] 2 in if plain then inner else fails not_json

  pub clone_items : Items → ℕ → List JsValue → ℕ → Clone
  clone_items nil index done used = gives (array (items_onto done nil)) used
  clone_items (hole rest) index done used =
      if overflows (comma index) used then fails too_large else fails not_json
  clone_items (cons v rest) index done used =
      let inner =
        absorb (clone v) (used + comma index) (λ c b. clone_items rest (suc index) (c ∷ done) b) in
      if overflows (comma index) used then fails too_large else inner

  pub clone_props : Props → ℕ → List (JsString × JsValue) → ℕ → Clone
  clone_props end index done used = gives (object true (props_onto done end)) used
  clone_props (prop key v rest) index done used = key_clone key index used (
      absorb (clone v) (used + key_bytes key index)
        (λ c b. clone_props rest (suc index) ((key, c) ∷ done) b))
