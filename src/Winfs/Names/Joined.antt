-- ===== src/Winfs/Names/Joined.antt =====
-- `split_path` of src/winfs/names.rs takes apart what was joined.
use hf_mount.Base.{
  ℕ, ◌≡◌, ◌≢◌, refl, sym, ◌∙◌, ap, Bool, false, inl, inr, none, some, List, [], ◌∷◌, ◌++◌, arith,
  nat_beq, Text, text_eq, Bool-cases, Option-cases,
}
use hf_mount.Inode.Entry.{is_empty}
use hf_mount.Winfs.Names.{
  NameProblem, empty, dot_or_dot_dot, invalid_char, components, is_invalid_char, is_dot_or_dot_dot,
  find, windows_name_problem, split_on, without_last, is_stream_char, check_components, split_path,
}
use hf_mount.Winfs.Names.Paths.{IsBelow, AreBelow, check_components_below}

-- The components with a backslash between them.
unfoldable pub join : List Text → Text
join [] = []
join (w ∷ []) = w
join (w ∷ v ∷ ws) = w ++ 92 ∷ join (v ∷ ws)

-- The path of WinFsp to a file, from the root.
abbrev pub volume_path : List Text → Text
volume_path names = 92 ∷ join names

-- Windows can represent every name.
abbrev pub AreRepresentable : List Text → Type 0
AreRepresentable [] = Unit
AreRepresentable (w ∷ ws) = (windows_name_problem w ≡ none) × AreRepresentable ws

-- No character is one of the kind.
unfoldable AreFree : (ℕ → Bool) → Text → Type 0
AreFree test [] = Unit
AreFree test (c ∷ text) = (test c ≡ false) × AreFree test text

find-AreFree : (test : ℕ → Bool) (text : Text) → find test text ≡ none → AreFree test text
unfolding find AreFree
find-AreFree test [] h = tt
find-AreFree test (c ∷ text) h = elim (Bool-cases (test c)) [
  | inl bad ↦ absurd (ground arith)
  | inr good ↦ (good, find-AreFree test text (ground arith))
]

AreFree-find : (test : ℕ → Bool) (text : Text) → AreFree test text → find test text ≡ none
unfolding find AreFree
AreFree-find test [] free = refl
AreFree-find test (c ∷ text) (good, free) = rw good (AreFree-find test text free)

AreFree-weaken :
    (test other : ℕ → Bool) (text : Text)
    → ((c : ℕ) → test c ≡ false → other c ≡ false)
    → AreFree test text
    → AreFree other text
unfolding AreFree
AreFree-weaken test other [] weaker free = tt
AreFree-weaken test other (c ∷ text) weaker (good, free) =
    (weaker c good, AreFree-weaken test other text weaker free)

no_stream_char : (c : ℕ) → is_invalid_char c ≡ false → is_stream_char c ≡ false
unfolding is_invalid_char is_stream_char
no_stream_char c h = ground arith

no_backslash : (c : ℕ) → is_invalid_char c ≡ false → nat_beq c 92 ≡ false
unfolding is_invalid_char
no_backslash c h = ground arith

-- What the checks of a name leave.
record IsPlain (w : Text) : Type 0 where
  full : is_empty w ≡ false
  no_dots : is_dot_or_dot_dot w ≡ false
  clean : AreFree is_invalid_char w

name-IsPlain : (w : Text) → windows_name_problem w ≡ none → IsPlain w
unfolding windows_name_problem
name-IsPlain w h = elim (Bool-cases (is_empty w)) [
  | inl blank ↦ absurd (some_not_none empty (sym (rw blank refl) ∙ h))
  | inr full ↦ elim (Bool-cases (is_dot_or_dot_dot w)) [
    | inl dots ↦ absurd (some_not_none dot_or_dot_dot (sym (rw (full, dots) refl) ∙ h))
    | inr no_dots ↦ elim (Option-cases (find is_invalid_char w)) [
      | inr (c, bad) ↦ absurd (
          some_not_none (invalid_char c)
            (sym (rw (full, no_dots) (rw (bad, windows_name_problem) refl)) ∙ h))
      | inl clean ↦ record {
        full = full;
        no_dots = no_dots;
        clean = find-AreFree is_invalid_char w clean;
      }
    ]
  ]
]
  where
    some_not_none : (p : NameProblem) → some p ≢ none
    some_not_none p h = cc

plain-IsBelow : (w : Text) → IsPlain w → IsBelow w
plain-IsBelow w p = record {
  full = p.full;
  no_dots = p.no_dots;
  no_stream =
      AreFree-find is_stream_char w
        (AreFree-weaken is_invalid_char is_stream_char w no_stream_char p.clean);
}

abbrev HasNoBackslash : Text → Type 0
HasNoBackslash = AreFree (λ c. nat_beq c 92)

split_on_last : (w : Text) → HasNoBackslash w → split_on 92 w ≡ w ∷ []
unfolding split_on AreFree
split_on_last [] free = refl
split_on_last (c ∷ w) (good, free) = rw (good, split_on_last w free) refl

split_on-append :
    (w rest : Text) → HasNoBackslash w → split_on 92 (w ++ 92 ∷ rest) ≡ w ∷ split_on 92 rest
unfolding split_on AreFree
split_on-append [] rest free = refl
split_on-append (c ∷ w) rest (good, free) = rw (good, split_on-append w rest free) refl

without_last_name : (w : Text) → HasNoBackslash w → without_last 92 w ≡ w
unfolding without_last AreFree
without_last_name [] free = refl
without_last_name (c ∷ w) (good, free) = ground (arith, without_last_name w free)

without_last-append :
    (w rest : Text)
    → is_empty rest ≡ false
    → without_last 92 (w ++ rest) ≡ w ++ without_last 92 rest
unfolding without_last
without_last-append [] rest full = refl
without_last-append (c ∷ []) rest full = rw full refl
without_last-append (c ∷ d ∷ w) rest full = ap (◌∷◌ c) (without_last-append (d ∷ w) rest full)

abbrev ArePlain : List Text → Type 0
ArePlain [] = Unit
ArePlain (w ∷ ws) = IsPlain w × ArePlain ws

backslash_free : (w : Text) → IsPlain w → HasNoBackslash w
backslash_free w p = AreFree-weaken is_invalid_char (λ c. nat_beq c 92) w no_backslash p.clean

names-ArePlain : (ws : List Text) → AreRepresentable ws → ArePlain ws
names-ArePlain [] all = tt
names-ArePlain (w ∷ ws) all = (name-IsPlain w all.0, names-ArePlain ws all.1)

plains-AreBelow : (ws : List Text) → ArePlain ws → AreBelow ws
plains-AreBelow [] all = tt
plains-AreBelow (w ∷ ws) all = (plain-IsBelow w all.0, plains-AreBelow ws all.1)

join_full : (w : Text) (ws : List Text) → IsPlain w → is_empty (join (w ∷ ws)) ≡ false
unfolding join
join_full w [] p = p.full
join_full [] (v ∷ ws) p = refl
join_full (c ∷ w) (v ∷ ws) p = refl

without_last_marker :
    (rest : Text) → is_empty rest ≡ false → without_last 92 (92 ∷ rest) ≡ 92 ∷ without_last 92 rest
unfolding without_last
without_last_marker rest full = rw full refl

without_last_joined : (ws : List Text) → ArePlain ws → without_last 92 (join ws) ≡ join ws
unfolding join
without_last_joined [] all = unfold without_last in refl
without_last_joined (w ∷ []) all = without_last_name w (backslash_free w all.0)
without_last_joined (w ∷ v ∷ ws) all =
    let full = join_full v ws all.1.0 in
    without_last-append w (92 ∷ join (v ∷ ws)) refl
    ∙ ap (λ l. w ++ l)
        (without_last_marker (join (v ∷ ws)) full
          ∙ ap (◌∷◌ 92) (without_last_joined (v ∷ ws) all.1))

split_joined :
    (w : Text) (ws : List Text) → ArePlain (w ∷ ws) → split_on 92 (join (w ∷ ws)) ≡ w ∷ ws
unfolding join
split_joined w [] all = split_on_last w (backslash_free w all.0)
split_joined w (v ∷ ws) all =
    split_on-append w (join (v ∷ ws)) (backslash_free w all.0)
    ∙ ap (◌∷◌ w) (split_joined v ws all.1)

-- The path of names that Windows can represent is taken apart into exactly those names.
pub split_path-volume_path :
    (names : List Text) → AreRepresentable names → split_path (volume_path names) ≡ components names
unfolding split_path
split_path-volume_path [] all = unfold join in refl
split_path-volume_path (w ∷ ws) all =
    let plain = names-ArePlain (w ∷ ws) all in
    let full = join_full w ws plain.0 in
    rw full (
      ap (λ l. check_components (split_on 92 l)) (without_last_joined (w ∷ ws) plain)
      ∙ ap check_components (split_joined w ws plain)
      ∙ check_components_below (w ∷ ws) (plains-AreBelow (w ∷ ws) plain))
