-- ===== src/Tokens.antt =====
-- backend/app/auth/tokens.py. A text is the list of its code points. Base64, HMAC-SHA256 and JSON are
-- parameters, and an instant is a number of microseconds since 1970.
pub mod Encoding
pub mod Reading
use formula1_dashboard.Common.{
  ℕ, zero, suc, ◌+◌, ◌-◌, ◌*◌, ◌/◌, ◌%◌, Bool, true, false, not, Option, none, some, List, [], ◌∷◌,
  ◌++◌, Outcome, ok, err, ◌>>=◌, ◌>>◌, guard, or_raise, ltb, leb, ◌==◌, ◌&&◌, if◌then◌else◌, length,
  any,
}
use formula1_dashboard.Policy.Settings.{same_list}

-- `TokenKind`.
pub data TokenKind : Type 0 where
  session bearer : TokenKind

-- `MAX_TOKEN_LENGTH`.
abbrev pub max_token_length : ℕ
max_token_length = 4096

-- The causes of `InvalidTokenError`.
pub data InvalidToken : Type 0 where
  unusable : InvalidToken
  not_ascii : InvalidToken
  malformed : InvalidToken
  wrong_signature : InvalidToken
  malformed_payload : InvalidToken
  unrecognised_kind : InvalidToken
  malformed_timestamps : InvalidToken
  expired : InvalidToken

-- `AccessToken`.
pub record AccessToken : Type 0 where
  pub kind : TokenKind
  pub issued_at : ℕ
  pub expires_at : ℕ

-- The JSON object of a token: the kind, if it is one of the two, and what `int` makes of the two
-- timestamps, none where it raises or the key is missing.
pub record Payload : Type 0 where
  pub kind : Option TokenKind
  pub iat : Option ℕ
  pub exp : Option ℕ

-- What `json.loads` gives.
pub data Json : Type 0 where
  object : Payload → Json
  not_object : Json

-- The last second that `datetime.fromtimestamp` takes.
abbrev pub max_timestamp : ℕ
max_timestamp = 253402300799

-- `str.rstrip("=")`.
unfoldable pub rstrip : List ℕ → List ℕ
rstrip [] = []
rstrip (c ∷ cs) = elim (rstrip cs) [ [] ↦ if c == b'=' then [] else c ∷ [] | d ∷ ds ↦ c ∷ d ∷ ds ]

unfoldable pub repeat : ℕ → ℕ → List ℕ
repeat c zero = []
repeat c (suc n) = c ∷ repeat c n

-- `str.partition(".")`: none without the separator.
unfoldable pub partition : List ℕ → Option (List ℕ × List ℕ)
partition [] = none
partition (c ∷ cs) =
    if c == b'.'
    then some ([], cs)
    else (elim (partition cs) [ none ↦ none | some (before, after) ↦ some (c ∷ before, after) ])

abbrev is_empty : List ℕ → Bool
is_empty [] = true
is_empty _ = false

abbrev pub seconds : ℕ → ℕ
seconds t = t / 1000000

-- `datetime.fromtimestamp`.
unfoldable pub from_timestamp : Option ℕ → Outcome InvalidToken ℕ
from_timestamp none = err malformed_timestamps
from_timestamp (some t) = guard (leb t max_timestamp) malformed_timestamps >> ok (t * 1000000)

-- The payload of a token.
abbrev pub payload_of : TokenKind → ℕ → ℕ → Payload
payload_of kind lifetime now = record {
  kind = some kind;
  iat = some (seconds now);
  exp = some (seconds (now + lifetime));
}

-- The tests on the claims of a payload.
unfoldable pub read_payload : ℕ → Payload → Outcome InvalidToken AccessToken
unfolding from_timestamp
read_payload now payload = do
  kind ← or_raise unrecognised_kind payload.kind
  issued_at ← from_timestamp payload.iat
  expires_at ← from_timestamp payload.exp
  guard (ltb now expires_at) expired
  ok (record { kind = kind; issued_at = issued_at; expires_at = expires_at })

unfoldable pub read_json : ℕ → Json → Outcome InvalidToken AccessToken
unfolding read_payload
read_json now not_object = err malformed_payload
read_json now (object payload) = read_payload now payload

-- The library functions that the tokens are made with.
pub record Crypto : Type 0 where
  pub b64encode : List ℕ → List ℕ
  pub b64decode : List ℕ → Option (List ℕ)
  pub digest : List ℕ → List ℕ → List ℕ
  pub dumps : Payload → List ℕ
  pub loads : List ℕ → Option Json

module _ (crypto : Crypto) where
  -- `_encode`.
  unfoldable pub encode : List ℕ → List ℕ
  unfolding rstrip
  encode raw = rstrip (crypto.b64encode raw)

  -- `_decode`, with `-len(value) % 4` padding characters.
  unfoldable pub decode : List ℕ → Option (List ℕ)
  unfolding repeat
  decode value = crypto.b64decode (value ++ repeat b'=' ((4 - length value % 4) % 4))

  -- `_sign`.
  unfoldable pub sign : List ℕ → List ℕ → List ℕ
  unfolding encode
  sign encoded secret_key = encode (crypto.digest secret_key encoded)

  -- `issue_token`.
  unfoldable pub issue_token : TokenKind → List ℕ → ℕ → ℕ → List ℕ
  unfolding encode sign
  issue_token kind secret_key lifetime now =
      let encoded = encode (crypto.dumps (payload_of kind lifetime now)) in
      encoded ++ (b'.' ∷ sign encoded secret_key)

  -- The part after the token was split.
  unfoldable pub read_parts : List ℕ → ℕ → List ℕ → List ℕ → Outcome InvalidToken AccessToken
  unfolding sign same_list decode read_json
  read_parts secret_key now encoded signature = do
    guard (not (is_empty encoded) && not (is_empty signature)) malformed
    guard (same_list (sign encoded secret_key) signature) wrong_signature
    bytes ← or_raise malformed_payload (decode encoded)
    json ← or_raise malformed_payload (crypto.loads bytes)
    read_json now json

  -- `read_token`, of a text; none is anything else.
  unfoldable pub read_token : List ℕ → ℕ → Option (List ℕ) → Outcome InvalidToken AccessToken
  unfolding any partition read_parts
  read_token secret_key now none = err unusable
  read_token secret_key now (some token) = do
    guard (not (is_empty token) && leb (length token) max_token_length) unusable
    guard (not (any (λ c. leb 128 c) token)) not_ascii
    parts ← or_raise malformed (partition token)
    read_parts secret_key now parts.0 parts.1
