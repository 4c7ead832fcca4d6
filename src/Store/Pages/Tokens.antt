-- ===== src/Store/Pages/Tokens.antt =====
-- internal/store/cursor.go: Encode and DecodeCursor. Base64 and RFC 3339 are Go's; they are parameters.
use Prim.Native.Char.{code}
use Prim.Native.String.{◌++◌ as append, ◌∷◌ as prepend}
use sentinel_flow_project.Base.{
  ◌<◌, String, ◌≡◌, Bool, true, false, Option, none, some, ◌==◌, if◌then◌else◌,
}
use sentinel_flow_project.Base.Results.{Result, ok, err}
use sentinel_flow_project.Base.Text.{is_empty}
use sentinel_flow_project.Base.Time.{end_of_written, Time}
use sentinel_flow_project.Store.Pages.{Cursor, start, is_start}

-- base64.RawURLEncoding, and Format and Parse of time.RFC3339Nano.
pub record Codec : Type 0 where
  pub encode_bytes : String → String
  pub decode_bytes : String → Option String
  pub format_time : Time → String
  pub parse_time : String → Option Time

unfoldable pub has_comma : String → Bool
has_comma String.[] = false
has_comma (prepend c s) = let rest = has_comma s in if code c == 44 then true else rest

-- What the packages document.
pub record IsCodec (k : Codec) : Type 0 where
  pub decode-encode : (s : String) → k.decode_bytes (k.encode_bytes s) ≡ some s
  pub encode_nonempty : (s : String) → is_empty s ≡ false → is_empty (k.encode_bytes s) ≡ false
  pub parse-format : (t : Time) → t < end_of_written → k.parse_time (k.format_time t) ≡ some t
  pub format_plain : (t : Time) → has_comma (k.format_time t) ≡ false

pub data TokenError : Type 0 where
  not_a_token malformed bad_timestamp : TokenError

-- strings.Cut(s, ","): the texts before and after the first comma, if there is one.
unfoldable pub cut : String → Option (String × String)
cut String.[] = none
cut (prepend c s) =
    let rest : Option (String × String) = elim (cut s) [
      | none ↦ none
      | some (before, after) ↦ some (prepend c before, after)
    ] in
    if code c == 44 then some ("", s) else rest

module _ (k : Codec) where
  -- Cursor.Encode
  unfoldable pub encode : Cursor → String
  unfolding is_start
  encode c =
      if is_start c then "" else k.encode_bytes (append (k.format_time c.time) (append "," c.id))

  unfoldable pub parsed : Option Time → String → Result TokenError Cursor
  parsed none id = err bad_timestamp
  parsed (some t) id = ok (record { time = t; id = id })

  unfoldable pub parse_pair : Option (String × String) → Result TokenError Cursor
  unfolding parsed
  parse_pair none = err malformed
  parse_pair (some (raw_time, id)) =
      if is_empty id then err malformed else parsed (k.parse_time raw_time) id

  unfoldable pub parse_bytes : Option String → Result TokenError Cursor
  unfolding cut parse_pair
  parse_bytes none = err not_a_token
  parse_bytes (some s) = parse_pair (cut s)

  -- DecodeCursor
  unfoldable pub decode_cursor : String → Result TokenError Cursor
  unfolding parse_bytes
  decode_cursor token = if is_empty token then ok start else parse_bytes (k.decode_bytes token)
