-- ===== src/Provider/Validity.antt =====
-- What `Request.Validate` promises of the requests that it accepts.
use cursor_cli_byok.Base.{
  sym, ◌≡◌, ◌≢◌, ◌⊎◌, ◌↔◌, refl, true, false, List, [], ◌∷◌, Bytes, ok, All, arith, map, Bool-cases,
  inl, inr,
}
use cursor_cli_byok.Go.Strings.{same, same_iff}
use cursor_cli_byok.Provider.{
  Role, system, user, assistant, tool, other_role, ToolCall, Message, Tool, Request,
  valid_bounded_text, valid_json_object, is_tool_name, validate_calls, validate_as,
  validate_message, validate_messages, contains, validate_tools, validate_request,
}

-- Different from every name of the list.
abbrev pub IsFresh : Bytes → List Bytes → Type 0
IsFresh name = All (λ other. other ≢ name)

-- No name stands twice.
abbrev pub IsDistinct : List Bytes → Type 0
IsDistinct [] = Unit
IsDistinct (name ∷ names) = IsFresh name names × IsDistinct names

pub contains-IsFresh :
    (name : Bytes) (seen : List Bytes) → contains name seen ≡ false → IsFresh name seen
unfolding contains
contains-IsFresh name [] h = tt
contains-IsFresh name (s ∷ seen) h =
    ((λ e. ground (arith, (same_iff s name).1 e)), contains-IsFresh name seen (ground arith))

pub IsFresh-contains :
    (name : Bytes) (seen : List Bytes) → IsFresh name seen → contains name seen ≡ false
unfolding contains
IsFresh-contains name [] h = refl
IsFresh-contains name (s ∷ seen) h = elim (Bool-cases (same s name)) [
  | inl e ↦ absurd (h.0 ((same_iff s name).0 e))
  | inr n ↦ rw (n, IsFresh-contains name seen h.1)
]

pub record IsCall (call : ToolCall) : Type 0 where
  pub id_fits : valid_bounded_text call.id 1024 ≡ true
  pub name_fits : is_tool_name call.name ≡ true
  pub arguments_fit : valid_json_object call.arguments ≡ true

pub record IsOffered (t : Tool) : Type 0 where
  pub name_fits : is_tool_name t.name ≡ true
  pub parameters_fit : valid_json_object t.parameters ≡ true

-- What each role must carry, and must not.
abbrev pub Fits : Role → Message → Type 0
Fits system m = (m.content ≢ []) × (m.tool_calls ≡ []) × (m.tool_call_id ≡ [])
Fits user m = (m.content ≢ []) × (m.tool_calls ≡ []) × (m.tool_call_id ≡ [])
Fits assistant m =
    ((m.content ≢ []) ⊎ (m.tool_calls ≢ [])) × (m.tool_call_id ≡ []) × All IsCall m.tool_calls
Fits tool m = (valid_bounded_text m.tool_call_id 1024 ≡ true) × (m.tool_calls ≡ [])
Fits (other_role _) m = ⊥

abbrev pub IsMessage : Message → Type 0
IsMessage m = Fits m.role m

abbrev pub tool_name : Tool → Bytes
tool_name t = t.name

pub record IsRequest (r : Request) : Type 0 where
  pub model_fits : valid_bounded_text r.model 1024 ≡ true
  pub messages_ne_nil : r.messages ≢ []
  pub messages_fit : All IsMessage r.messages
  pub tools_fit : All IsOffered r.tools
  pub names_distinct : IsDistinct (map tool_name r.tools)

validate_calls_sound : (calls : List ToolCall) → validate_calls calls ≡ ok tt → All IsCall calls
unfolding validate_calls
validate_calls_sound [] h = tt
validate_calls_sound (call ∷ calls) h = (
  record { id_fits = ground arith; name_fits = ground arith; arguments_fit = ground arith },
  validate_calls_sound calls (ground arith),
)

validate_calls_complete : (calls : List ToolCall) → All IsCall calls → validate_calls calls ≡ ok tt
unfolding validate_calls
validate_calls_complete [] h = refl
validate_calls_complete (call ∷ calls) h = ground (arith, validate_calls_complete calls h.1)

validate_as_sound : (r : Role) (m : Message) → validate_as r m ≡ ok tt → Fits r m
unfolding validate_as
validate_as_sound system m h = (ground arith, ground arith, ground arith)
validate_as_sound user m h = (ground arith, ground arith, ground arith)
validate_as_sound assistant m h =
    (ground arith, ground arith, validate_calls_sound m.tool_calls (ground arith))
validate_as_sound tool m h = (ground arith, ground arith)
validate_as_sound (other_role _) m h = cc

validate_as_complete : (r : Role) (m : Message) → Fits r m → validate_as r m ≡ ok tt
unfolding validate_as
validate_as_complete assistant m h = ground (arith, validate_calls_complete m.tool_calls h.2)
validate_as_complete (other_role _) m h = absurd h
validate_as_complete _ m h = ground arith

validate_messages_sound : (ms : List Message) → validate_messages ms ≡ ok tt → All IsMessage ms
unfolding validate_messages validate_message
validate_messages_sound [] h = tt
validate_messages_sound (m ∷ ms) h =
    (validate_as_sound m.role m (ground arith), validate_messages_sound ms (ground arith))

validate_messages_complete : (ms : List Message) → All IsMessage ms → validate_messages ms ≡ ok tt
unfolding validate_messages validate_message
validate_messages_complete [] h = refl
validate_messages_complete (m ∷ ms) h =
    ground (arith, validate_as_complete m.role m h.0, validate_messages_complete ms h.1)

-- The names of the tools differ from those seen before, and from one another.
abbrev AreNew : List Bytes → List Tool → Type 0
AreNew seen [] = Unit
AreNew seen (t ∷ ts) = (contains t.name seen ≡ false) × AreNew (t.name ∷ seen) ts

validate_tools_sound :
    (seen : List Bytes) (ts : List Tool)
    → validate_tools seen ts ≡ ok tt
    → All IsOffered ts × AreNew seen ts
unfolding validate_tools
validate_tools_sound seen [] h = (tt, tt)
validate_tools_sound seen (t ∷ ts) h =
    let later = validate_tools_sound (t.name ∷ seen) ts (ground arith) in
    (
      (record { name_fits = ground arith; parameters_fit = ground arith }, later.0),
      (ground arith, later.1),
    )

validate_tools_complete :
    (seen : List Bytes) (ts : List Tool)
    → All IsOffered ts
    → AreNew seen ts
    → validate_tools seen ts ≡ ok tt
unfolding validate_tools
validate_tools_complete seen [] h k = refl
validate_tools_complete seen (t ∷ ts) h k =
    ground (arith, validate_tools_complete (t.name ∷ seen) ts h.1 k.1)

-- No tool has a name of the list.
abbrev Avoids : List Bytes → List Tool → Type 0
Avoids seen = All (λ t. contains t.name seen ≡ false)

Avoids-cons :
    (name : Bytes) (seen : List Bytes) (ts : List Tool)
    → Avoids seen ts
    → IsFresh name (map tool_name ts)
    → Avoids (name ∷ seen) ts
unfolding contains
Avoids-cons name seen [] h k = tt
Avoids-cons name seen (t ∷ ts) h k = (
  elim (Bool-cases (same name t.name)) [
    | inl e ↦ absurd (k.0 (sym ((same_iff name t.name).0 e)))
    | inr n ↦ rw n h.0
  ],
  Avoids-cons name seen ts h.1 k.1,
)

Avoids-head :
    (name : Bytes) (seen : List Bytes) (ts : List Tool)
    → Avoids (name ∷ seen) ts
    → IsFresh name (map tool_name ts) × Avoids seen ts
unfolding contains
Avoids-head name seen [] h = (tt, tt)
Avoids-head name seen (t ∷ ts) h =
    let later = Avoids-head name seen ts h.1 in
    (
      ((λ e. ground (arith, h.0, (same_iff name t.name).1 (sym e))), later.0),
      (ground (arith, h.0), later.1),
    )

AreNew-IsDistinct :
    (seen : List Bytes) (ts : List Tool)
    → AreNew seen ts
    → IsDistinct (map tool_name ts) × Avoids seen ts
AreNew-IsDistinct seen [] h = (tt, tt)
AreNew-IsDistinct seen (t ∷ ts) h =
    let later = AreNew-IsDistinct (t.name ∷ seen) ts h.1 in
    let (fresh, avoids) = Avoids-head t.name seen ts later.1 in ((fresh, later.0), (h.0, avoids))

IsDistinct-AreNew :
    (seen : List Bytes) (ts : List Tool)
    → IsDistinct (map tool_name ts)
    → Avoids seen ts
    → AreNew seen ts
IsDistinct-AreNew seen [] d a = tt
IsDistinct-AreNew seen (t ∷ ts) d a =
    (a.0, IsDistinct-AreNew (t.name ∷ seen) ts d.1 (Avoids-cons t.name seen ts a.1 d.0))

Avoids-nil : (ts : List Tool) → Avoids [] ts
unfolding contains
Avoids-nil [] = tt
Avoids-nil (t ∷ ts) = (refl, Avoids-nil ts)

validate_request_sound : (r : Request) → validate_request r ≡ ok tt → IsRequest r
unfolding validate_request
validate_request_sound r h =
    let tools_ok = validate_tools_sound [] r.tools (ground arith) in
    record {
      model_fits = ground arith;
      messages_ne_nil = ground arith;
      messages_fit = validate_messages_sound r.messages (ground arith);
      tools_fit = tools_ok.0;
      names_distinct = (AreNew-IsDistinct [] r.tools tools_ok.1).0;
    }

validate_request_complete : (r : Request) → IsRequest r → validate_request r ≡ ok tt
unfolding validate_request
validate_request_complete r h = ground (
  arith,
  h.model_fits,
  h.messages_ne_nil,
  validate_messages_complete r.messages h.messages_fit,
  validate_tools_complete [] r.tools h.tools_fit
      (IsDistinct-AreNew [] r.tools h.names_distinct (Avoids-nil r.tools)),
)

-- `Request.Validate` accepts exactly the requests with a bounded model name, at least one message,
-- every message with what its role must carry and nothing else, every tool with a name of the
-- pattern and an object for its parameters, and no two tools of one name.
pub validate_request_iff : (r : Request) → (validate_request r ≡ ok tt) ↔ IsRequest r
validate_request_iff r = (validate_request_sound r, validate_request_complete r)
