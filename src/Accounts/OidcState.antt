-- ===== src/Accounts/OidcState.antt =====
-- The state that travels through a sign-in: the cookie that OIDCLogin sets, verifyState and
-- finishRedirect of internal/handlers/auth.go, with SignHMAC and VerifyHMAC of
-- internal/crypto/crypto.go. A text is walked as the list of its characters.
use Prim.Native.Char.{Char}
use Prim.Native.String.{◌++◌ as ◌<>◌}
use topology_v.Base.{
  String, Bool, true, false, ◌≡◌, refl, Option, none, some, List, [], ◌∷◌, ◌++◌, str_eq, eq_iff,
  arith, any, if◌then◌else◌,
}
use topology_v.Base.Chars.{chars, of_chars, chars-of_chars, of_chars-chars}
use topology_v.Accounts.Platform.{Platform}
use topology_v.Accounts.Text.{is_char}

abbrev after_head : Char → Option (List Char × List Char) → Option (List Char × List Char)
after_head c none = none
after_head c (some (a, b)) = some (c ∷ a, b)

-- strings.Cut at one character: the parts around its first occurrence.
unfoldable pub cut : (Char → Bool) → List Char → Option (List Char × List Char)
cut q [] = none
cut q (c ∷ cs) = let rest = after_head c (cut q cs) in if q c then some ([], cs) else rest

-- strings.Join(…, "|") of the three parts.
unfoldable pub join_state : String → String → String → String
join_state state invite return_to =
    of_chars (chars state ++ "|" ∷ (chars invite ++ "|" ∷ chars return_to))

-- The value of the cookie that OIDCLogin sets.
unfoldable pub state_cookie : Platform → String → String → String → String
unfolding join_state
state_cookie p state invite return_to =
    let payload = join_state state invite return_to in
    of_chars (chars (p.mac payload) ++ ":" ∷ chars (p.encode payload))

-- strings.SplitN(payload, "|", 3), where it has three parts.
abbrev pub split3 : List Char → Option (List Char × List Char × List Char)
unfolding cut
split3 cs = elim (cut (is_char b'|') cs) [
  | none ↦ none
  | some (a, rest) ↦ elim (cut (is_char b'|') rest) [ none ↦ none | some (b, c) ↦ some (a, b, c) ]
]

-- What a signed payload is worth for the state that the provider sent back.
abbrev pub read_payload : String → String → Option (String × String)
read_payload state payload = elim (split3 (chars payload)) [
  | none ↦ none
  | some (a, b, c) ↦ if str_eq (of_chars a) state then some (of_chars b, of_chars c) else none
]

-- verifyState: the invite and the return address, for a cookie that the server signed.
unfoldable pub verify_state : Platform → Option String → String → Option (String × String)
unfolding cut
verify_state p none state = none
verify_state p (some cookie) state = elim (cut (is_char b':') (chars cookie)) [
  | none ↦ none
  | some (sig, rest) ↦ elim (p.decode (of_chars rest)) [
    | none ↦ none
    | some payload ↦
        if str_eq (p.mac payload) (of_chars sig) then read_payload state payload else none
  ]
]

abbrev is_path : List Char → Bool
is_path [] = false
is_path (c ∷ cs) = is_char b'/' c

-- finishRedirect: where the browser is sent.
unfoldable pub finish_redirect : Platform → String → String → String
finish_redirect p return_to invite =
    if str_eq invite ""
    then if is_path (chars return_to) then return_to else "/"
    else "/invites/accept?token=" <> p.query_escape invite

-- No character passes the test.
abbrev pub Lacks : (Char → Bool) → List Char → Type 0
Lacks q cs = any q cs ≡ false

cut-append :
    (q : Char → Bool) (xs : List Char) (c : Char) (ys : List Char)
    → Lacks q xs
    → q c ≡ true
    → cut q (xs ++ c ∷ ys) ≡ some (xs, ys)
unfolding cut
cut-append q [] c ys h k = rw k refl
cut-append q (x ∷ xs) c ys h k = ground (arith, cut-append q xs c ys)

-- The cookie that OIDCLogin sets gives verifyState the invite and the return address back, for the
-- state that the login made: where neither the state nor the invite holds a '|', the signature is
-- text without a ':', and the decoder undoes the encoder. Every other state is refused.
pub verify_state-state_cookie :
    (p : Platform) (state invite return_to other : String)
    → Lacks (is_char b'|') (chars state)
    → Lacks (is_char b'|') (chars invite)
    → ((s : String) → Lacks (is_char b':') (chars (p.mac s)))
    → ((s : String) → p.decode (p.encode s) ≡ some s)
    → verify_state p (some (state_cookie p state invite return_to)) other
      ≡ (if str_eq state other then some (invite, return_to) else none)
unfolding verify_state state_cookie join_state
verify_state-state_cookie p state invite return_to other hs hi hm hd =
    let payload = join_state state invite return_to in
    let outer =
      cut-append (is_char b':') (chars (p.mac payload)) ":" (chars (p.encode payload)) (hm payload)
        refl in
    let first =
      cut-append (is_char b'|') (chars state) "|" (chars invite ++ "|" ∷ chars return_to) hs refl in
    let second = cut-append (is_char b'|') (chars invite) "|" (chars return_to) hi refl in
    rw
      (
        verify_state,
        state_cookie,
        chars-of_chars (chars (p.mac payload) ++ ":" ∷ chars (p.encode payload)),
        outer,
        of_chars-chars (p.encode payload),
        hd payload,
        of_chars-chars (p.mac payload),
        (eq_iff (p.mac payload) (p.mac payload)).1 refl,
        read_payload,
        split3,
        join_state,
        chars-of_chars (chars state ++ "|" ∷ (chars invite ++ "|" ∷ chars return_to)),
        first,
        second,
        of_chars-chars state,
        of_chars-chars invite,
        of_chars-chars return_to,
      )
      refl
