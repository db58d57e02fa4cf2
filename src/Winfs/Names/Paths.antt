-- ===== src/Winfs/Names/Paths.antt =====
-- `split_path` of src/winfs/names.rs: the components of what it accepts, and every path of names that
-- Windows can represent is taken apart into those names.
use hf_mount.Base.{
  ℕ, ◌≤◌, arith, true, codes, nat_beq_iff, ◌≡◌, ◌≢◌, refl, sym, ◌∙◌, ap, false, inl, inr, none,
  List, [], ◌∷◌, nat_beq, Text, text_eq, Bool-cases, Option-cases,
}
use mathlib.Core.Path.{subst}
use hf_mount.Inode.Entry.{is_empty}
use hf_mount.Base.Equality.{text_beq}
use hf_mount.Winfs.Names.{
  put_first, dot_or_dot_dot, PathError, malformed, invalid_component, invalid_char, Split,
  components, refused, is_dot_or_dot_dot, find, split_on, without_last, is_stream_char,
  check_components, push_component, split_path,
}

-- A component names something below its directory: it is not empty, not `.` or `..`, and holds no
-- `:`, `/` or control character.
pub record IsBelow (w : Text) : Type 0 where
  pub full : is_empty w ≡ false
  pub no_dots : is_dot_or_dot_dot w ≡ false
  pub no_stream : find is_stream_char w ≡ none

abbrev pub AreBelow : List Text → Type 0
AreBelow [] = Unit
AreBelow (w ∷ ws) = IsBelow w × AreBelow ws

check_one :
    (w : Text) (ws : List Text)
    → IsBelow w
    → check_components (w ∷ ws) ≡ push_component w (check_components ws)
unfolding check_components
check_one w ws b = rw (b.full, b.no_dots) (rw (b.no_stream, check_components) refl)

pub check_components_below : (ws : List Text) → AreBelow ws → check_components ws ≡ components ws
unfolding check_components
check_components_below [] below = refl
check_components_below (w ∷ ws) below =
    check_one w ws below.0 ∙ ap (push_component w) (check_components_below ws below.1)

refused_not : (e : PathError) (ws : List Text) → refused e ≢ components ws
refused_not e ws h = cc

pushed_below :
    (w : Text) (ws names : List Text) (s : Split)
    → IsBelow w
    → ((ns : List Text) → s ≡ components ns → AreBelow ns × (ns ≡ ws))
    → push_component w s ≡ components names
    → AreBelow names × (names ≡ w ∷ ws)
pushed_below w ws names (refused e) b below h = absurd (refused_not e names h)
pushed_below w ws names (components ns) b below h =
    let e : w ∷ ns ≡ names = cc in
    (
      subst AreBelow e (b, (below ns refl).0),
      sym e ∙ ap (λ (l : List Text). w ∷ l) (below ns refl).1,
    )

-- What is accepted is what was there.
check_components-AreBelow :
    (ws names : List Text) → check_components ws ≡ components names → AreBelow names × (names ≡ ws)
unfolding check_components
check_components-AreBelow [] names h = let e : [] ≡ names = cc in (subst AreBelow e tt, sym e)
check_components-AreBelow (w ∷ ws) names h = elim (Bool-cases (is_empty w)) [
  | inl blank ↦ absurd (refused_not malformed names (sym (rw blank refl) ∙ h))
  | inr full ↦ elim (Bool-cases (is_dot_or_dot_dot w)) [
    | inl dots ↦
        absurd
          (refused_not (invalid_component dot_or_dot_dot) names (sym (rw (full, dots) refl) ∙ h))
    | inr no_dots ↦ elim (Option-cases (find is_stream_char w)) [
      | inr (c, bad) ↦ absurd (
          refused_not (invalid_component (invalid_char c)) names
            (sym (rw (full, no_dots) (rw (bad, check_components) refl)) ∙ h))
      | inl no_stream ↦
          let b : IsBelow w = record { full = full; no_dots = no_dots; no_stream = no_stream } in
          pushed_below w ws names (check_components ws) b (check_components-AreBelow ws)
            (sym (check_one w ws b) ∙ h)
    ]
  ]
]

-- A name without the separator.
abbrev IsUnsplit : ℕ → Text → Type 0
IsUnsplit c [] = Unit
IsUnsplit c (x ∷ w) = (nat_beq x c ≡ false) × IsUnsplit c w

abbrev AreUnsplit : ℕ → List Text → Type 0
AreUnsplit c [] = Unit
AreUnsplit c (w ∷ ws) = IsUnsplit c w × AreUnsplit c ws

put_first-AreUnsplit :
    (c x : ℕ) (ws : List Text)
    → nat_beq x c ≡ false
    → AreUnsplit c ws
    → AreUnsplit c (put_first x ws)
put_first-AreUnsplit c x [] other all = ((other, tt), tt)
put_first-AreUnsplit c x (w ∷ ws) other all = ((other, all.0), all.1)

split_on-AreUnsplit : (c : ℕ) (s : Text) → AreUnsplit c (split_on c s)
unfolding split_on
split_on-AreUnsplit c [] = (tt, tt)
split_on-AreUnsplit c (x ∷ s) = elim (Bool-cases (nat_beq x c)) [
  | inl here ↦ rw here (tt, split_on-AreUnsplit c s)
  | inr other ↦ rw other (put_first-AreUnsplit c x (split_on c s) other (split_on-AreUnsplit c s))
]

split_below :
    (path : Text) (names : List Text)
    → split_path path ≡ components names
    → AreBelow names × AreUnsplit 92 names
unfolding split_path
split_below [] names h = absurd (refused_not malformed names h)
split_below (c ∷ rest) names h = elim (Bool-cases (nat_beq c 92)) [
  | inr relative ↦ absurd (refused_not malformed names (sym (rw relative refl) ∙ h))
  | inl rooted ↦ elim (Bool-cases (is_empty rest)) [
    | inl root ↦
        let e : components [] ≡ components names = sym (rw (rooted, root) refl) ∙ h in
        let none_left : [] ≡ names = cc in
        (subst AreBelow none_left tt, subst (AreUnsplit 92) none_left tt)
    | inr deeper ↦
        let pieces = split_on 92 (without_last 92 rest) in
        let (below, same) =
          check_components-AreBelow pieces names (sym (rw (rooted, deeper) refl) ∙ h) in
        (below, subst (AreUnsplit 92) (sym same) (split_on-AreUnsplit 92 (without_last 92 rest)))
  ]
]

-- No character of the name is a control character, `:`, `/` or a backslash.
abbrev ArePlain : Text → Type 0
ArePlain [] = Unit
ArePlain (x ∷ w) = (32 ≤ x) × (x ≢ 58) × (x ≢ 47) × (x ≢ 92) × ArePlain w

pub record IsInside (w : Text) : Type 0 where
  pub full : w ≢ []
  pub no_dot : w ≢ codes "."
  pub no_dots : w ≢ codes ".."
  pub plain : ArePlain w

abbrev pub AreInside : List Text → Type 0
AreInside [] = Unit
AreInside (w ∷ ws) = IsInside w × AreInside ws

plain_of : (w : Text) → find is_stream_char w ≡ none → IsUnsplit 92 w → ArePlain w
unfolding find is_stream_char
plain_of [] h k = tt
plain_of (x ∷ w) h k = (
  ground arith,
  λ e. ground arith,
  λ e. ground arith,
  λ e. ground (arith, nat_beq_iff x 92),
  plain_of w (ground arith) k.1,
)

IsBelow-IsInside : (w : Text) → IsBelow w → IsUnsplit 92 w → IsInside w
unfolding text_beq
IsBelow-IsInside w b u = record {
  full = λ e. let k : true ≡ false = sym (ap is_empty e) ∙ b.full in ground arith;
  no_dot = λ e. let k : true ≡ false = sym (ap is_dot_or_dot_dot e) ∙ b.no_dots in ground arith;
  no_dots = λ e. let k : true ≡ false = sym (ap is_dot_or_dot_dot e) ∙ b.no_dots in ground arith;
  plain = plain_of w b.no_stream u;
}

insides : (names : List Text) → AreBelow names → AreUnsplit 92 names → AreInside names
insides [] below unsplit = tt
insides (w ∷ ws) below unsplit =
    (IsBelow-IsInside w below.0 unsplit.0, insides ws below.1 unsplit.1)

-- Whatever path is accepted, each of its components is not empty, is not a dot or two dots, and
-- holds no colon, slash, backslash or control character.
pub split_path-AreInside :
    (path : Text) (names : List Text) → split_path path ≡ components names → AreInside names
split_path-AreInside path names h = let r = split_below path names h in insides names r.0 r.1
