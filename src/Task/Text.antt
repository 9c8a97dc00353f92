-- ===== src/Task/Text.antt =====
-- internal/task/task.go: states as text and as JSON.
use netbula.Base.{
  ℕ, zero, suc, String, ◌≡◌, ◌≢◌, refl, ap, ◌⊎◌, inl, inr, arith, ◌==◌, string_eq, nat_eq,
  if◌then◌else◌,
}
use netbula.Base.Int.{ℤ, pos, negsuc}
use netbula.Base.Result.{Err, Result, ok, err, fresh, wrap, ◌>>=◌, context}
use netbula.Task.{State, pending, scheduled, running, completed, failed}

-- A `State` of the source is an `int`; these five are its constants, from `iota` on.
abbrev pub to_int : State → ℤ
to_int pending = pos 0
to_int scheduled = pos 1
to_int running = pos 2
to_int completed = pos 3
to_int failed = pos 4

unfoldable pub state_to_string : ℤ → String
state_to_string (pos n) =
    if n == 0
    then "PENDING"
    else if n == 1
    then "SCHEDULED"
    else if n == 2
    then "RUNNING"
    else if n == 3
    then "COMPLETED"
    else if n == 4
    then "FAILED"
    else "UNKNOWN"
state_to_string (negsuc n) = "UNKNOWN"

unfoldable pub string_to_state : String → Result State
string_to_state str =
    if str == "PENDING"
    then ok pending
    else if str == "SCHEDULED"
    then ok scheduled
    else if str == "RUNNING"
    then ok running
    else if str == "COMPLETED"
    then ok completed
    else if str == "FAILED"
    then ok failed
    else err (fresh "unknown state")

-- What encoding/json does with one Go string.
pub record StringJson : Type 0 where
  pub marshal : String → Result String
  pub unmarshal : String → Result String

pub record IsStringJson (json : StringJson) : Type 0 where
  pub unmarshal-marshal : (s b : String) → json.marshal s ≡ ok b → json.unmarshal b ≡ ok s

unfoldable pub marshal_json : StringJson → ℤ → Result String
unfolding state_to_string
marshal_json json s = json.marshal (state_to_string s)

unfoldable pub unmarshal_json : StringJson → String → Result State
unmarshal_json json bytes = do
  str ← context "failed to unmarshal bytes" (json.unmarshal bytes)
  context "failed to turn string into `State`" (string_to_state str)

pub string_to_state-to_int : (s : State) → string_to_state (state_to_string (to_int s)) ≡ ok s
unfolding string_to_state state_to_string string_eq nat_eq
string_to_state-to_int pending = refl
string_to_state-to_int scheduled = refl
string_to_state-to_int running = refl
string_to_state-to_int completed = refl
string_to_state-to_int failed = refl

-- What the text of a state is read as.
abbrev Reads : ℤ → Type 0
Reads n =
    ((s : State) × (n ≡ to_int s) × (string_to_state (state_to_string n) ≡ ok s))
    ⊎ (((s : State) → n ≢ to_int s) × (e : Err) × (string_to_state (state_to_string n) ≡ err e))

outside :
    (n : ℤ) → n ≢ pos 0 → n ≢ pos 1 → n ≢ pos 2 → n ≢ pos 3 → n ≢ pos 4 → (s : State) → n ≢ to_int s
outside n a b c d e pending = a
outside n a b c d e scheduled = b
outside n a b c d e running = c
outside n a b c d e completed = d
outside n a b c d e failed = e

state_to_string-unknown :
    (n : ℕ) → state_to_string (pos (suc (suc (suc (suc (suc n)))))) ≡ "UNKNOWN"
unfolding state_to_string
state_to_string-unknown n = ground arith

string_to_state-state_to_string : (n : ℤ) → Reads n
unfolding string_to_state state_to_string string_eq nat_eq
string_to_state-state_to_string (negsuc n) = inr (
  outside (negsuc n) (λ p. ground arith) (λ p. ground arith) (λ p. ground arith) (λ p. ground arith)
      (λ p. ground arith),
  fresh "unknown state",
  refl,
)
string_to_state-state_to_string (pos zero) = inl (pending, refl, string_to_state-to_int pending)
string_to_state-state_to_string (pos (suc zero)) =
    inl (scheduled, refl, string_to_state-to_int scheduled)
string_to_state-state_to_string (pos (suc (suc zero))) =
    inl (running, refl, string_to_state-to_int running)
string_to_state-state_to_string (pos (suc (suc (suc zero)))) =
    inl (completed, refl, string_to_state-to_int completed)
string_to_state-state_to_string (pos (suc (suc (suc (suc zero))))) =
    inl (failed, refl, string_to_state-to_int failed)
string_to_state-state_to_string (pos (suc (suc (suc (suc (suc n)))))) = inr (
  outside (pos _) (λ p. ground arith) (λ p. ground arith) (λ p. ground arith) (λ p. ground arith)
      (λ p. ground arith),
  fresh "unknown state",
  ap string_to_state (state_to_string-unknown n),
)

-- What JSON encoding writes for an `int` that is one of the five states is read back as that
-- state; what it writes for any other `int` is refused. Decoding a JSON string gives the string
-- that was encoded.
pub unmarshal_json-marshal_json :
    (json : StringJson) (n : ℤ) (b : String)
    → IsStringJson json
    → marshal_json json n ≡ ok b
    → ((s : State) × (n ≡ to_int s) × (unmarshal_json json b ≡ ok s))
      ⊎ (((s : State) → n ≢ to_int s) × (e : Err) × (unmarshal_json json b ≡ err e))
unfolding marshal_json unmarshal_json
unmarshal_json-marshal_json json n b law h =
    let read = law.unmarshal-marshal (state_to_string n) b h in
    elim (string_to_state-state_to_string n) [
      | inl (s, same, p) ↦ inl (s, same, ground (arith, read, p))
      | inr (none_of, e, p) ↦
          inr (none_of, wrap "failed to turn string into `State`" e, ground (arith, read, p))
    ]
