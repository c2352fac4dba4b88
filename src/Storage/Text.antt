-- ===== src/Storage/Text.antt =====
-- The argument checks of src/model_forge/storage/repository.py: `_text`, `_digest`, `_json`, `_time`.
use Prim.Native.Char.{code}
use model_forge.Prelude.{
  ℕ, String, Bool, not, ◌&&◌, ◌||◌, Option, none, some, List, [], ◌∷◌, leb, nat_eq, length, any,
  all, Result, ok, err, if◌then◌else◌,
}

-- The code points of a text.
abbrev pub codes : String → List ℕ
codes String.[] = []
codes (String.◌∷◌ c s) = code c ∷ codes s

-- The characters that `str.strip` takes off.
is_space : ℕ → Bool
is_space c =
    leb 9 c && leb c 13
    || leb 28 c && leb c 32
    || nat_eq c 133
    || nat_eq c 160
    || nat_eq c 5760
    || leb 8192 c && leb c 8202
    || nat_eq c 8232
    || nat_eq c 8233
    || nat_eq c 8239
    || nat_eq c 8287
    || nat_eq c 12288

-- `bool(value.strip())`
unfoldable pub is_nonblank : String → Bool
unfolding is_space
is_nonblank value = any (λ c. not (is_space c)) (codes value)

unfoldable pub text : String → Result String
unfolding is_nonblank
text value =
    if not (is_nonblank value) || any (λ c. nat_eq c 0) (codes value)
    then err "repository.invalid_text"
    else ok value

is_lower_hex : ℕ → Bool
is_lower_hex c = leb b'0' c && leb c b'9' || leb b'a' c && leb c b'f'

-- `_SHA256.fullmatch`
unfoldable pub is_sha256 : String → Bool
unfolding is_lower_hex
is_sha256 value = nat_eq (length (codes value)) 64 && all is_lower_hex (codes value)

unfoldable pub digest : String → Result String
unfolding is_sha256
digest value = if is_sha256 value then ok value else err "repository.invalid_sha256"

-- A payload is the text that `json.dumps` makes of it, `none` where that raises.
abbrev pub Payload : Type 0
Payload = Option String

unfoldable pub json : Payload → Result String
json none = err "repository.invalid_json"
json (some payload_json) = ok payload_json

-- A time argument: left out (with what the clock then reads), a datetime without a timezone, one
-- with a timezone (with its UTC text), or a text.
pub data Timestamp : Type 0 where
  unset : String → Timestamp
  naive : Timestamp
  aware : String → Timestamp
  stamp : String → Timestamp

unfoldable pub time : Timestamp → Result String
unfolding text
time (unset now) = ok now
time naive = err "repository.invalid_time"
time (aware utc) = ok utc
time (stamp value) = text value
