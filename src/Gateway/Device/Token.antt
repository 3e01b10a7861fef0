-- ===== src/Gateway/Device/Token.antt =====
-- sessionIdFromToken of backend/cloudflare/proof-gateway-worker/src/device-auth.ts, on the texts that are
-- the tokens.
use Prim.Native.Char.{Char, code}
use Prim.Native.String
use Prim.Native.String.{◌++◌ as append, count as characters}
use Prim.Native.String.append
use Prim.Native.String.count
use midnight_buildathons_bac.Prelude.{
  ℕ, zero, suc, ◌+◌, ◌≡◌, ◌∙◌, refl, ap, String, Bool, true, false, ◌&&◌, ◌||◌, Option, none, some,
  List, [], ◌∷◌, if◌then◌else◌, leb, ltb, ◌==◌, arith,
}
use text.Mathlib.TextLemmas.{length-append}
use midnight_buildathons_bac.Protocol.Identifier.{is_alphanumeric}

-- [0-9a-f-], in either case of the letters.
abbrev pub is_uuid_code : ℕ → Bool
is_uuid_code c =
    (leb b'0' c && leb c b'9')
    || (leb b'a' c && leb c b'f')
    || (leb b'A' c && leb c b'F')
    || c == b'-'

-- [A-Za-z\d_-]
unfoldable pub is_base64_url_code : ℕ → Bool
unfolding is_alphanumeric
is_base64_url_code c = is_alphanumeric c || c == b'_' || c == b'-'

-- So many characters, each in the class.
unfoldable pub has_only : (ℕ → Bool) → ℕ → String → Bool
has_only p zero String.[] = true
has_only p zero (String.◌∷◌ c s) = false
has_only p (suc n) String.[] = false
has_only p (suc n) (String.◌∷◌ c s) = p (code c) && has_only p n s

-- The first part is longer by a character.
abbrev pub put_first : Char → List String → List String
put_first c [] = String.◌∷◌ c String.[] ∷ []
put_first c (t ∷ ts) = String.◌∷◌ c t ∷ ts

-- `split('.')`
unfoldable pub split_dot : String → List String
split_dot String.[] = "" ∷ []
split_dot (String.◌∷◌ c s) =
    let rest = split_dot s in if code c == b'.' then "" ∷ rest else put_first c rest

unfoldable pub id_of_parts : List String → Option String
unfolding is_base64_url_code
id_of_parts (session_id ∷ secret ∷ []) =
    if has_only is_uuid_code 36 session_id && has_only is_base64_url_code 43 secret
    then some session_id
    else none
id_of_parts _ = none

unfoldable pub session_id_from_token : String → Option String
session_id_from_token token =
    if ltb 256 (characters token) then none else id_of_parts (split_dot token)

append_nil : (t : String) → append "" t ≡ t
append_nil t = String.append.nil t

append_cons : (c : Char) (s t : String) → append (String.◌∷◌ c s) t ≡ String.◌∷◌ c (append s t)
append_cons c s t = String.append.cons c s t

characters_cons : (c : Char) (s : String) → characters (String.◌∷◌ c s) ≡ suc (characters s)
characters_cons c s = String.count.cons c s

-- A class without the dot.
module _ (p : ℕ → Bool) (clean : (c : ℕ) → p c ≡ true → (c == b'.') ≡ false) where
  split_dot-clean : (n : ℕ) (s : String) → has_only p n s ≡ true → split_dot s ≡ s ∷ []
  unfolding split_dot has_only
  split_dot-clean zero String.[] h = refl
  split_dot-clean zero (String.◌∷◌ c s) h = cc
  split_dot-clean (suc n) String.[] h = cc
  split_dot-clean (suc n) (String.◌∷◌ c s) h =
      let here : p (code c) ≡ true = ground arith in
      let rest : has_only p n s ≡ true = ground arith in
      rw (clean (code c) here, split_dot-clean n s rest) refl

  split_dot-append :
      (n : ℕ) (s t : String)
      → has_only p n s ≡ true
      → split_dot (append s (append "." t)) ≡ s ∷ split_dot t
  unfolding split_dot has_only
  split_dot-append zero String.[] t h =
      rw (append_nil (append "." t), append_cons "." String.[] t, append_nil t) refl
  split_dot-append zero (String.◌∷◌ c s) t h = cc
  split_dot-append (suc n) String.[] t h = cc
  split_dot-append (suc n) (String.◌∷◌ c s) t h =
      let here : p (code c) ≡ true = ground arith in
      let rest : has_only p n s ≡ true = ground arith in
      rw (append_cons c s (append "." t), clean (code c) here, split_dot-append n s t rest) refl

  characters-only : (n : ℕ) (s : String) → has_only p n s ≡ true → characters s ≡ n
  unfolding has_only
  characters-only zero String.[] h = refl
  characters-only zero (String.◌∷◌ c s) h = cc
  characters-only (suc n) String.[] h = cc
  characters-only (suc n) (String.◌∷◌ c s) h =
      let rest : has_only p n s ≡ true = ground arith in
      characters_cons c s ∙ ap suc (characters-only n s rest)

is_uuid_code-clean : (c : ℕ) → is_uuid_code c ≡ true → (c == b'.') ≡ false
is_uuid_code-clean c h = ground arith

is_base64_url_code-clean : (c : ℕ) → is_base64_url_code c ≡ true → (c == b'.') ≡ false
unfolding is_base64_url_code is_alphanumeric
is_base64_url_code-clean c h = ground arith

pub session_id_from_token_lem :
    (id secret : String)
    → has_only is_uuid_code 36 id ≡ true
    → has_only is_base64_url_code 43 secret ≡ true
    → session_id_from_token (append id (append "." secret)) ≡ some id
unfolding session_id_from_token id_of_parts
session_id_from_token_lem id secret h k =
    let size : characters (append id (append "." secret)) ≡ 80 =
      length-append id (append "." secret)
      ∙ ap (λ n. characters id + n) (length-append "." secret)
      ∙ omega (
        arith,
        characters-only is_uuid_code is_uuid_code-clean 36 id h,
        characters-only is_base64_url_code is_base64_url_code-clean 43 secret k,
      ) in
    let parts =
      split_dot-append is_uuid_code is_uuid_code-clean 36 id secret h
      ∙ ap (λ l. id ∷ l)
          (split_dot-clean is_base64_url_code is_base64_url_code-clean 43 secret k) in
    rw (size, parts, h, k) refl
