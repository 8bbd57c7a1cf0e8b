-- ===== src/Terminal/State.antt =====
-- packages/protocol/src/terminal-policy.ts, `cloneTerminalState` and `validateTerminalState`, over
-- values that are trees: every object is reached once, so the memo of shared nodes is never read
-- and no cycle arises. The last `JSON.stringify`, which can only run out of the engine's stack, is taken
-- to succeed.
pub mod Direct
pub mod Walking
pub mod Compact
pub mod Accepted
use loop_platform_zhb.Base.{
  ℕ, zero, suc, ◌+◌, ◌-◌, JsString, Bool, true, false, ◌&&◌, ◌||◌, not, List, [], ◌∷◌, length, ltb,
  ◌==◌, if◌then◌else◌, leb, utf8_length,
}
use loop_platform_zhb.Terminal.{is_pg_representable_text}

-- `number` holds whether it is finite and how `JSON.stringify` prints it; `other` is undefined, a
-- function, a symbol or a bigint; `object` holds whether its prototype is null or the plain one.
mutual
  pub data JsValue : Type 0 where
    null : JsValue
    boolean : Bool → JsValue
    number : Bool → JsString → JsValue
    string : JsString → JsValue
    other : JsValue
    array : Items → JsValue
    object : Bool → Props → JsValue

  -- `hole` is an index with no own property.
  pub data Items : Type 0 where
    nil : Items
    cons : JsValue → Items → Items
    hole : Items → Items

  pub data Props : Type 0 where
    end : Props
    prop : JsString → JsValue → Props → Props

abbrev pub terminal_state_max_compact_utf8_bytes : ℕ
terminal_state_max_compact_utf8_bytes = 65536

pub data TerminalStateFailure : Type 0 where
  not_object not_json too_large : TerminalStateFailure

-- `unfinished` is a loop that has not ended in the turns given to it; the source has no such result.
pub data TerminalStateValidation : Type 0 where
  ok : JsValue → TerminalStateValidation
  rejected : TerminalStateFailure → TerminalStateValidation
  unfinished : TerminalStateValidation

-- The bytes that JSON escapes add to a code unit: `\"`, `\\` and the short control escapes take one
-- more, the other control characters five more.
abbrev escape_bytes : ℕ → ℕ
escape_bytes c =
    if c == 0x22 || c == 0x5c || (leb 8 c && leb c 13 && not (c == 11))
    then 1
    else if ltb c 0x20
    then 5
    else 0

unfoldable pub escapes : JsString → ℕ
escapes [] = 0
escapes (c ∷ s) = escape_bytes c + escapes s

-- `compactPrimitiveBytes` of a string: the quotes, the text and its escapes.
unfoldable pub string_bytes : JsString → ℕ
string_bytes s = 2 + utf8_length s + escapes s

-- `compactPrimitiveBytes` of a boolean
abbrev pub boolean_bytes : Bool → ℕ
boolean_bytes true = 4
boolean_bytes false = 5

-- A cursor in an array or object under construction: what is left of the source, its index, the
-- clone so far with the last child first, and its compact bytes.
pub data CloneFrame : Type 0 where
  array_frame : Items → ℕ → List JsValue → ℕ → CloneFrame
  object_frame : Props → ℕ → List (JsString × JsValue) → ℕ → CloneFrame

-- An open frame with the place that its `attach` callback fills: the next element, or a key.
pub data Pending : Type 0 where
  element : Items → ℕ → List JsValue → ℕ → Pending
  property : JsString → Props → ℕ → List (JsString × JsValue) → ℕ → Pending

abbrev pub items_onto : List JsValue → Items → Items
items_onto [] xs = xs
items_onto (v ∷ done) xs = items_onto done (cons v xs)

abbrev pub props_onto : List (JsString × JsValue) → Props → Props
props_onto [] ps = ps
props_onto ((k, v) ∷ done) ps = props_onto done (prop k v ps)

-- The event stack: a `visit` on top of the `next` events of the open frames, or those alone.
pub data Walk : Type 0 where
  visiting : JsValue → List Pending → Walk
  resuming : CloneFrame → List Pending → Walk
  finished : JsValue → Walk
  failed : TerminalStateFailure → Walk

-- the test by which `addBytes` refuses
abbrev pub overflows : ℕ → ℕ → Bool
overflows bytes used = ltb (terminal_state_max_compact_utf8_bytes - used) bytes

-- The `attach` callbacks: into the frame below, or as the root.
unfoldable pub attach : JsValue → ℕ → List Pending → Walk
attach clone bytes [] = finished clone
attach clone bytes (element rest index done used ∷ frames) =
    if overflows bytes used
    then failed too_large
    else resuming (array_frame rest index (clone ∷ done) (used + bytes)) frames
attach clone bytes (property key rest index done used ∷ frames) =
    if overflows bytes used
    then failed too_large
    else resuming (object_frame rest index ((key, clone) ∷ done) (used + bytes)) frames

unfoldable pub visit : JsValue → List Pending → Walk
visit null frames = attach null 4 frames
visit (boolean b) frames = attach (boolean b) (boolean_bytes b) frames
visit (string s) frames =
    if not (is_pg_representable_text s)
    then failed not_json
    else if ltb terminal_state_max_compact_utf8_bytes (length s)
    then failed too_large
    else attach (string s) (string_bytes s) frames
visit (number finite text) frames =
    if finite then attach (number finite text) (length text) frames else failed not_json
visit other frames = failed not_json
visit (array items) frames = resuming (array_frame items 0 [] 2) frames
visit (object plain props) frames =
    if plain then resuming (object_frame props 0 [] 2) frames else failed not_json

-- The comma before every child but the first.
abbrev pub comma : ℕ → ℕ
comma zero = 0
comma (suc index) = 1

-- The turn of a `next` event: the frame's next child, or its completion.
unfoldable pub resume : CloneFrame → List Pending → Walk
resume (array_frame nil index done used) frames = attach (array (items_onto done nil)) used frames
resume (array_frame (hole rest) index done used) frames =
    if overflows (comma index) used then failed too_large else failed not_json
resume (array_frame (cons v rest) index done used) frames =
    if overflows (comma index) used
    then failed too_large
    else visiting v (element rest (suc index) done (used + comma index) ∷ frames)
resume (object_frame end index done used) frames =
    attach (object true (props_onto done end)) used frames
resume (object_frame (prop key v rest) index done used) frames =
    if not (is_pg_representable_text key)
    then failed not_json
    else if ltb terminal_state_max_compact_utf8_bytes (length key)
    then failed too_large
    else if overflows (comma index + string_bytes key + 1) used
    then failed too_large
    else visiting v
        (property key rest (suc index) done (used + (comma index + string_bytes key + 1)) ∷ frames)

unfoldable pub step : Walk → Walk
step (visiting v frames) = visit v frames
step (resuming frame frames) = resume frame frames
step (finished clone) = finished clone
step (failed failure) = failed failure

-- The loop `while (eventCount > 0 && failure === null)`, for a number of turns.
unfoldable pub run : ℕ → Walk → Walk
run zero w = w
run (suc n) w = run n (step w)

-- The turns that a value takes: one visit for each value, and one `next` for each child and for
-- the end of each array and object.
unfoldable mutual
  pub turns : JsValue → ℕ
  turns null = 1
  turns (boolean b) = 1
  turns (number finite text) = 1
  turns (string s) = 1
  turns other = 1
  turns (array items) = suc (item_turns items)
  turns (object plain props) = suc (prop_turns props)

  pub item_turns : Items → ℕ
  item_turns nil = 1
  item_turns (cons v rest) = suc (turns v + item_turns rest)
  item_turns (hole rest) = 1

  pub prop_turns : Props → ℕ
  prop_turns end = 1
  prop_turns (prop key v rest) = suc (turns v + prop_turns rest)

unfoldable pub outcome : Walk → TerminalStateValidation
outcome (finished clone) = ok clone
outcome (failed failure) = rejected failure
outcome (visiting v frames) = unfinished
outcome (resuming frame frames) = unfinished

unfoldable pub clone_terminal_state : JsValue → TerminalStateValidation
clone_terminal_state root = outcome (run (turns root) (visiting root []))

unfoldable pub validate_terminal_state : JsValue → TerminalStateValidation
validate_terminal_state (object plain props) = clone_terminal_state (object plain props)
validate_terminal_state value = rejected not_object
