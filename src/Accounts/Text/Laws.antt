-- ===== src/Accounts/Text/Laws.antt =====
-- What SanitizeUsername leaves of a text, and what maskEmail shows of an address.
use Prim.Native.Char.{Char}
use topology_v.Base.{
  String, Bool, true, false, ◌≡◌, refl, ap, List, [], ◌∷◌, arith, is_empty, All, if◌then◌else◌,
  Bool-cases, inl, inr, ◌&&◌,
}
use topology_v.Base.Chars.{chars, of_chars, chars-of_chars}
use topology_v.Accounts.Platform.{Platform}
use topology_v.Accounts.Text.{
  is_char, trim_left, trim_right, trim, before_at, local_part, is_username_char, keep_username,
  is_edge, lower_all, sanitize_runes, sanitize_username,
}

abbrev pub IsUsernameChar : Char → Type 0
IsUsernameChar c = is_username_char c ≡ true

-- The first character passes the test.
abbrev pub starts_with : (Char → Bool) → List Char → Bool
starts_with q [] = false
starts_with q (c ∷ cs) = q c

-- The last character passes the test.
abbrev pub ends_with : (Char → Bool) → List Char → Bool
ends_with q [] = false
ends_with q (c ∷ cs) = let rest = ends_with q cs in if is_empty cs then q c else rest

module _ (q : Char → Bool) where
  trim_right_idem : (cs : List Char) → trim_right q (trim_right q cs) ≡ trim_right q cs
  trim_right_idem [] = refl
  trim_right_idem (c ∷ cs) = ground (arith, trim_right_idem cs)

  trim_left-trim_right :
      (cs : List Char) → trim_left q (trim_right q (trim_left q cs)) ≡ trim_right q (trim_left q cs)
  trim_left-trim_right [] = refl
  trim_left-trim_right (c ∷ cs) = ground (arith, trim_left-trim_right cs)

  trim_idem : (cs : List Char) → trim q (trim q cs) ≡ trim q cs
  unfolding trim
  trim_idem cs = rw (trim_left-trim_right cs) (trim_right_idem (trim_left q cs))

  starts_with-trim_left : (cs : List Char) → starts_with q (trim_left q cs) ≡ false
  starts_with-trim_left [] = refl
  starts_with-trim_left (c ∷ cs) = ground (arith, starts_with-trim_left cs)

  starts_with-trim_right :
      (cs : List Char) → starts_with q cs ≡ false → starts_with q (trim_right q cs) ≡ false
  starts_with-trim_right [] h = refl
  starts_with-trim_right (c ∷ cs) h = ground (arith, h)

  ends_with-trim_right : (cs : List Char) → ends_with q (trim_right q cs) ≡ false
  ends_with-trim_right [] = refl
  ends_with-trim_right (c ∷ cs) = ground (arith, ends_with-trim_right cs)

  trim-ends :
      (cs : List Char) → (starts_with q (trim q cs) ≡ false) × (ends_with q (trim q cs) ≡ false)
  unfolding trim
  trim-ends cs = (
    starts_with-trim_right (trim_left q cs) (starts_with-trim_left cs),
    ends_with-trim_right (trim_left q cs),
  )

  trim_left_none : (cs : List Char) → All (λ c. q c ≡ false) cs → trim_left q cs ≡ cs
  trim_left_none [] h = refl
  trim_left_none (c ∷ cs) (h, hs) = rw h refl

  trim_right_none : (cs : List Char) → All (λ c. q c ≡ false) cs → trim_right q cs ≡ cs
  trim_right_none [] h = refl
  trim_right_none (c ∷ cs) (h, hs) = ground (arith, h, trim_right_none cs hs)

  trim_none : (cs : List Char) → All (λ c. q c ≡ false) cs → trim q cs ≡ cs
  unfolding trim
  trim_none cs h = rw (trim_left_none cs h) (trim_right_none cs h)

  All-trim_left : (cs : List Char) → All IsUsernameChar cs → All IsUsernameChar (trim_left q cs)
  All-trim_left [] h = tt
  All-trim_left (c ∷ cs) h = elim (Bool-cases (q c)) [
    | inl t ↦ rw t (All-trim_left cs h.1)
    | inr t ↦ rw t h
  ]

  All-trim_right : (cs : List Char) → All IsUsernameChar cs → All IsUsernameChar (trim_right q cs)
  All-trim_right [] h = tt
  All-trim_right (c ∷ cs) h = elim (Bool-cases (q c && is_empty (trim_right q cs))) [
    | inl t ↦ rw t tt
    | inr t ↦ rw t (h.0, All-trim_right cs h.1)
  ]

keep_username-IsUsernameChar : (cs : List Char) → All IsUsernameChar (keep_username cs)
unfolding is_username_char keep_username
keep_username-IsUsernameChar [] = tt
keep_username-IsUsernameChar (c ∷ cs) = elim (Bool-cases (is_username_char c)) [
  | inl t ↦ rw t (t, keep_username-IsUsernameChar cs)
  | inr t ↦ elim (Bool-cases (is_char b' ' c)) [
    | inl s ↦ rw (t, s) (refl, keep_username-IsUsernameChar cs)
    | inr s ↦ rw (t, s) (keep_username-IsUsernameChar cs)
  ]
]

keep_username_fixed : (cs : List Char) → All IsUsernameChar cs → keep_username cs ≡ cs
unfolding keep_username
keep_username_fixed [] h = refl
keep_username_fixed (c ∷ cs) (h, hs) = rw (h, keep_username_fixed cs hs) refl

username_char_not_at : (c : Char) → IsUsernameChar c → is_char b'@' c ≡ false
unfolding is_username_char
username_char_not_at c h = ground arith

before_at_fixed : (cs : List Char) → All IsUsernameChar cs → before_at cs ≡ cs
before_at_fixed [] h = refl
before_at_fixed (c ∷ cs) (h, hs) = rw (username_char_not_at c h, before_at_fixed cs hs) refl

local_part_fixed : (cs : List Char) → All IsUsernameChar cs → local_part cs ≡ cs
local_part_fixed [] h = refl
local_part_fixed (c ∷ cs) (h, hs) = rw (username_char_not_at c h, before_at_fixed cs hs) refl

module _ (p : Platform) where
  lower_all_fixed :
      ((c : Char) → IsUsernameChar c → p.lower c ≡ c)
      → (cs : List Char) → All IsUsernameChar cs
      → lower_all p cs ≡ cs
  lower_all_fixed k [] h = refl
  lower_all_fixed k (c ∷ cs) (h, hs) = rw (k c h, lower_all_fixed k cs hs) refl

  not_space :
      ((c : Char) → IsUsernameChar c → p.is_space c ≡ false)
      → (cs : List Char) → All IsUsernameChar cs
      → All (λ c. p.is_space c ≡ false) cs
  not_space k [] h = tt
  not_space k (c ∷ cs) (h, hs) = (k c h, not_space k cs hs)

  sanitize_runes-IsUsernameChar : (cs : List Char) → All IsUsernameChar (sanitize_runes p cs)
  unfolding sanitize_runes
  sanitize_runes-IsUsernameChar cs =
      let kept = local_part (lower_all p (trim p.is_space cs)) in
      let all = keep_username-IsUsernameChar kept in
      All-trim_right is_edge _ (All-trim_left is_edge (keep_username kept) all)

  sanitize_runes_idem :
      ((c : Char) → IsUsernameChar c → p.lower c ≡ c)
      → ((c : Char) → IsUsernameChar c → p.is_space c ≡ false)
      → (cs : List Char) → sanitize_runes p (sanitize_runes p cs) ≡ sanitize_runes p cs
  unfolding sanitize_runes
  sanitize_runes_idem lower space cs =
      let u = sanitize_runes p cs in
      let clean = sanitize_runes-IsUsernameChar cs in
      rw
        (
          trim_none p.is_space u (not_space space u clean),
          lower_all_fixed lower u clean,
          local_part_fixed u clean,
          keep_username_fixed u clean,
        )
        (trim_idem is_edge (keep_username (local_part (lower_all p (trim p.is_space cs)))))

  -- SanitizeUsername leaves only letters a-z, digits, dots, underscores and dashes, with none of the
  -- last three at either end, and a name that it returned it returns again unchanged; where
  -- lowercasing keeps these characters, and none of them is white space.
  pub sanitize_username_canonical :
      ((c : Char) → IsUsernameChar c → p.lower c ≡ c)
      → ((c : Char) → IsUsernameChar c → p.is_space c ≡ false)
      → (s : String)
      → All IsUsernameChar (chars (sanitize_username p s))
        × (starts_with is_edge (chars (sanitize_username p s)) ≡ false)
        × (ends_with is_edge (chars (sanitize_username p s)) ≡ false)
        × (sanitize_username p (sanitize_username p s) ≡ sanitize_username p s)
  unfolding sanitize_username sanitize_runes
  sanitize_username_canonical lower space s =
      let back = chars-of_chars (sanitize_runes p (chars s)) in
      let kept = keep_username (local_part (lower_all p (trim p.is_space (chars s)))) in
      (
        rw back (sanitize_runes-IsUsernameChar (chars s)),
        rw back (trim-ends is_edge kept).0,
        rw back (trim-ends is_edge kept).1,
        rw back (ap of_chars (sanitize_runes_idem lower space (chars s))),
      )
