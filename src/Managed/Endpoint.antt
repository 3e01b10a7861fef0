-- ===== src/Managed/Endpoint.antt =====
-- validateManagedEndpoint of backend/cloudflare/proof-gateway-worker/src/managed-source-core.ts: which
-- addresses of a source are refused. What `new URL` makes of the text is an argument.
use Prim.Native.Char.{code}
use midnight_buildathons_bac.Prelude.{
  ℕ, ◌+◌, ◌-◌, ◌*◌, String, Bool, true, false, ◌&&◌, ◌||◌, not, Option, none, some, List, [], ◌∷◌,
  if◌then◌else◌, leb, ltb, ◌==◌, str_eq, length,
}
use midnight_buildathons_bac.Managed.Failure.{Fetched, error, value, ◌>>◌, check}

-- `href` is the text of the address with its parameters sorted.
pub record Url : Type 0 where
  pub protocol : String
  pub username : String
  pub password : String
  pub hash : String
  pub port : String
  pub hostname : String
  pub parameters : List String
  pub href : String

-- A text as the codes of its characters.
unfoldable pub codes : String → List ℕ
codes String.[] = []
codes (String.◌∷◌ c s) = code c ∷ codes s

unfoldable pub starts_with : List ℕ → List ℕ → Bool
starts_with [] s = true
starts_with (p ∷ ps) [] = false
starts_with (p ∷ ps) (c ∷ s) = p == c && starts_with ps s

unfoldable pub reverse_onto : List ℕ → List ℕ → List ℕ
reverse_onto done [] = done
reverse_onto done (c ∷ s) = reverse_onto (c ∷ done) s

unfoldable pub ends_with : List ℕ → List ℕ → Bool
ends_with suffix s = starts_with (reverse_onto [] suffix) (reverse_onto [] s)

-- `split('.')`, of which the first part is `part` reversed and what follows.
unfoldable pub split_from : List ℕ → List ℕ → List (List ℕ)
split_from part [] = reverse_onto [] part ∷ []
split_from part (c ∷ s) =
    let here = split_from [] s in
    let longer = split_from (c ∷ part) s in
    if c == b'.' then reverse_onto [] part ∷ here else longer

abbrev pub is_digit : ℕ → Bool
is_digit c = leb b'0' c && leb c b'9'

unfoldable pub all_digits : List ℕ → Bool
all_digits [] = true
all_digits (c ∷ s) = is_digit c && all_digits s

-- /^\d{1,3}$/u
unfoldable pub is_part : List ℕ → Bool
is_part s = leb 1 (length s) && leb (length s) 3 && all_digits s

-- `Number(part)` of digits, from the value of the digits before.
unfoldable pub number_of : ℕ → List ℕ → ℕ
number_of n [] = n
number_of n (c ∷ s) = number_of (n * 10 + (c - b'0')) s

-- The address of four parts.
unfoldable pub is_private_address : ℕ → ℕ → ℕ → ℕ → Bool
is_private_address first second third fourth =
    if ltb 255 first || ltb 255 second || ltb 255 third || ltb 255 fourth
    then true
    else first == 0
      || first == 10
      || first == 127
      || leb 224 first
      || (first == 169 && second == 254)
      || (first == 172 && leb 16 second && leb second 31)
      || (first == 192 && second == 168)
      || (first == 100 && leb 64 second && leb second 127)

unfoldable pub is_private_parts : List (List ℕ) → Bool
is_private_parts (a ∷ b ∷ c ∷ d ∷ []) =
    if is_part a && is_part b && is_part c && is_part d
    then is_private_address (number_of 0 a) (number_of 0 b) (number_of 0 c) (number_of 0 d)
    else false
is_private_parts _ = false

unfoldable pub is_private_ipv4 : String → Bool
is_private_ipv4 hostname = is_private_parts (split_from [] (codes hostname))

abbrev pub strip_first : List ℕ → List ℕ
strip_first [] = []
strip_first (c ∷ s) = if c == b'[' then s else c ∷ s

abbrev strip_first_close : List ℕ → List ℕ
strip_first_close [] = []
strip_first_close (c ∷ s) = if c == b']' then s else c ∷ s

-- Without `[` in front and `]` at the end.
unfoldable pub strip_brackets : List ℕ → List ℕ
strip_brackets s = reverse_onto [] (strip_first_close (reverse_onto [] (strip_first s)))

unfoldable pub has_code : ℕ → List ℕ → Bool
has_code c [] = false
has_code c (d ∷ s) = c == d || has_code c s

unfoldable pub eq_codes : List ℕ → List ℕ → Bool
eq_codes [] [] = true
eq_codes (c ∷ s) (d ∷ t) = c == d && eq_codes s t
eq_codes _ _ = false

-- The host name of an address is in lower case.
unfoldable pub is_blocked_ipv6 : String → Bool
is_blocked_ipv6 hostname =
    let s = strip_brackets (codes hostname) in
    has_code b':' s
    && (eq_codes s (codes "::")
        || eq_codes s (codes "::1")
        || starts_with (codes "fc") s
        || starts_with (codes "fd") s
        || starts_with (codes "fe8") s
        || starts_with (codes "fe9") s
        || starts_with (codes "fea") s
        || starts_with (codes "feb") s
        || starts_with (codes "ff") s)

unfoldable pub has_blocked_suffix : String → Bool
has_blocked_suffix hostname =
    ends_with (codes ".internal") (codes hostname)
    || ends_with (codes ".local") (codes hostname)
    || ends_with (codes ".localhost") (codes hostname)

unfoldable pub is_public_https : Url → Bool
is_public_https endpoint =
    str_eq endpoint.protocol "https:"
    && str_eq endpoint.username ""
    && str_eq endpoint.password ""
    && str_eq endpoint.hash ""
    && (str_eq endpoint.port "" || str_eq endpoint.port "443")
    && not (str_eq endpoint.hostname "localhost")
    && not (has_blocked_suffix endpoint.hostname)
    && not (is_private_ipv4 endpoint.hostname)
    && not (is_blocked_ipv6 endpoint.hostname)

unfoldable pub has_parameter : String → List String → Bool
has_parameter name [] = false
has_parameter name (p ∷ ps) = str_eq p name || has_parameter name ps

-- `none` is a text that is no address.
unfoldable pub validate_managed_endpoint : Option Url → Fetched String
validate_managed_endpoint none = error "Endpoint URL is invalid"
validate_managed_endpoint (some endpoint) = do
  check (is_public_https endpoint) "Endpoint must be a public HTTPS URL"
  check (not (has_parameter "sourceId" endpoint.parameters))
      "Endpoint must not define the reserved sourceId query parameter"
  check (not (has_parameter "from" endpoint.parameters))
      "Endpoint must not define the reserved from query parameter"
  check (not (has_parameter "to" endpoint.parameters))
      "Endpoint must not define the reserved to query parameter"
  value endpoint.href
