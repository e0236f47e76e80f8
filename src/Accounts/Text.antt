-- ===== src/Accounts/Text.antt =====
-- The text functions behind the accounts: SanitizeUsername (internal/db/queries_auth.go),
-- looksLikeEmail and maskEmail (internal/handlers/email_verify.go), emailSHA1
-- (internal/handlers/auth.go). A text is walked as the list of its characters.
pub mod Laws
use Prim.Native.Char.{Char, code}
use topology_v.Base.{
  ℕ, String, Bool, true, false, not, ◌&&◌, ◌||◌, List, [], ◌∷◌, ◌++◌, ◌==◌, leb, any, is_empty,
  if◌then◌else◌,
}
use topology_v.Base.Chars.{chars, of_chars}
use topology_v.Accounts.Platform.{Platform}

abbrev pub is_char : ℕ → Char → Bool
is_char a c = code c == a

-- strings.TrimLeftFunc.
abbrev pub trim_left : (Char → Bool) → List Char → List Char
trim_left p [] = []
trim_left p (c ∷ cs) = let rest = trim_left p cs in if p c then rest else c ∷ cs

-- strings.TrimRightFunc.
abbrev pub trim_right : (Char → Bool) → List Char → List Char
trim_right p [] = []
trim_right p (c ∷ cs) = let rest = trim_right p cs in if p c && is_empty rest then [] else c ∷ rest

unfoldable pub trim : (Char → Bool) → List Char → List Char
trim p cs = trim_right p (trim_left p cs)

-- s[:IndexByte(s, '@')], and all of `s` where there is none.
abbrev pub before_at : List Char → List Char
before_at [] = []
before_at (c ∷ cs) = let rest = before_at cs in if is_char b'@' c then [] else c ∷ rest

-- s[IndexByte(s, '@'):], and nothing where there is none.
abbrev pub from_at : List Char → List Char
from_at [] = []
from_at (c ∷ cs) = let rest = from_at cs in if is_char b'@' c then c ∷ cs else rest

-- The cut at an '@' that is not the first character.
abbrev pub local_part : List Char → List Char
local_part [] = []
local_part (c ∷ cs) = if is_char b'@' c then c ∷ cs else c ∷ before_at cs

-- The runes that the switch keeps.
unfoldable pub is_username_char : Char → Bool
is_username_char c =
    (leb 97 (code c) && leb (code c) 122)
    || (leb 48 (code c) && leb (code c) 57)
    || is_char b'.' c
    || is_char b'_' c
    || is_char b'-' c

unfoldable pub keep_username : List Char → List Char
unfolding is_username_char
keep_username [] = []
keep_username (c ∷ cs) =
    let rest = keep_username cs in
    if is_username_char c then c ∷ rest else if is_char b' ' c then "-" ∷ rest else rest

-- The cutset ".-_".
abbrev pub is_edge : Char → Bool
is_edge c = is_char b'.' c || is_char b'-' c || is_char b'_' c

abbrev pub lower_all : Platform → List Char → List Char
lower_all p [] = []
lower_all p (c ∷ cs) = p.lower c ∷ lower_all p cs

unfoldable pub sanitize_runes : Platform → List Char → List Char
unfolding trim keep_username
sanitize_runes p cs = trim is_edge (keep_username (local_part (lower_all p (trim p.is_space cs))))

-- SanitizeUsername.
unfoldable pub sanitize_username : Platform → String → String
unfolding sanitize_runes
sanitize_username p s = of_chars (sanitize_runes p (chars s))

-- strings.TrimSpace.
unfoldable pub trim_space : Platform → String → String
unfolding trim
trim_space p s = of_chars (trim p.is_space (chars s))

-- emailSHA1.
unfoldable pub email_sha1 : Platform → String → String
unfolding trim
email_sha1 p s = p.sha1_hex (of_chars (lower_all p (trim p.is_space (chars s))))

-- The '.' of the domain, which is not its first character.
abbrev pub has_inner_dot : List Char → Bool
has_inner_dot [] = false
has_inner_dot (c ∷ cs) = not (is_char b'.' c) && any (is_char b'.') cs

abbrev pub is_blank_char : Char → Bool
is_blank_char c = is_char b' ' c || code c == 9 || code c == 13 || code c == 10

abbrev pub domain_ok : List Char → Bool
domain_ok [] = false
domain_ok (a ∷ domain) = not (is_empty domain) && has_inner_dot domain

-- looksLikeEmail.
unfoldable pub looks_like_email : List Char → Bool
looks_like_email s =
    not (is_empty (before_at s)) && domain_ok (from_at s) && not (any is_blank_char s)

abbrev stars : List Char
stars = "*" ∷ "*" ∷ "*" ∷ []

abbrev pub mask_parts : List Char → List Char → List Char
mask_parts [] domain = stars
mask_parts (c ∷ cs) [] = stars
mask_parts (c ∷ cs) (a ∷ domain) = c ∷ stars ++ a ∷ domain

-- maskEmail, on a text of single-byte characters.
unfoldable pub mask_email : List Char → List Char
mask_email s = mask_parts (before_at s) (from_at s)
