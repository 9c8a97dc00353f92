-- ===== src/Uuids.antt =====
-- github.com/google/uuid, as the program uses it: the sixteen bytes of an id are the number that
-- they spell, and `String` and `Parse` are parameters.
use Prim.Native.Nat.{ℕ}
use netbula.Base.{String, ◌≡◌, ◌≢◌, ap, arith}
use netbula.Base.Result.{Result, ok}

pub record Uuids : Type 0 where
  pub to_string : ℕ → String
  pub parse : String → Result ℕ

-- `Parse` reads what `String` writes, which is thirty-six characters.
pub record IsUuids (U : Uuids) : Type 0 where
  pub parse-to_string : (u : ℕ) → U.parse (U.to_string u) ≡ ok u
  pub to_string-ne : (u : ℕ) → U.to_string u ≢ ""

pub to_string-injective :
    (U : Uuids) (law : IsUuids U) (a b : ℕ) → U.to_string a ≡ U.to_string b → a ≡ b
to_string-injective U law a b e =
    ground (arith, law.parse-to_string a, law.parse-to_string b, ap U.parse e)

-- `uuid.Nil`
abbrev pub nil_uuid : ℕ
nil_uuid = 0
