-- ===== src/Flush/Batch/Dedup.antt =====
-- The list of inodes that `flush_batch` of src/virtual_fs/flush.rs works on: the source walks the
-- requests backwards with a set, and turns the result round.
use mathlib.Core.List.{reverse, reverse-cons, reverse-append}
use hf_mount.Base.{
  ℕ, ◌≡◌, refl, ◌∙◌, ap, ◌||◌, inl, inr, List, [], ◌∷◌, ◌++◌, arith, if◌then◌else◌, nat_eq,
  nat_beq_iff, Bool-cases,
}
use hf_mount.Flush.Batch.{contains, first_seen, deduped}

-- Each inode once, where it was asked for last.
unfoldable pub last_requests : List ℕ → List ℕ
last_requests [] = []
last_requests (i ∷ inos) =
    let rest = last_requests inos in if contains inos i then rest else i ∷ rest

contains-append : (a b : List ℕ) (i : ℕ) → contains (a ++ b) i ≡ (contains a i || contains b i)
unfolding contains
contains-append [] b i = refl
contains-append (j ∷ a) b i = ground (arith, contains-append a b i)

-- A request behind the others is kept unless it was seen.
first_seen-append :
    (seen inos : List ℕ) (i : ℕ)
    → first_seen seen (inos ++ i ∷ [])
      ≡ first_seen seen inos ++ (if contains seen i || contains inos i then [] else i ∷ [])
unfolding first_seen contains
first_seen-append seen [] i = ground arith
first_seen-append seen (j ∷ inos) i =
    ground
      (arith, first_seen-append seen inos i, first_seen-append (j ∷ seen) inos i, nat_beq_iff j i)

contains-reverse : (l : List ℕ) (i : ℕ) → contains (reverse l) i ≡ contains l i
unfolding contains
contains-reverse [] i = refl
contains-reverse (j ∷ l) i =
    ap (λ r. contains r i) (reverse-cons j l)
    ∙ contains-append (reverse l) (j ∷ []) i
    ∙ ground (arith, contains-reverse l i)

first_seen-reverse :
    (i : ℕ) (inos : List ℕ)
    → first_seen [] (reverse (i ∷ inos))
      ≡ first_seen [] (reverse inos) ++ (if contains inos i then [] else i ∷ [])
unfolding contains
first_seen-reverse i inos =
    ap (first_seen []) (reverse-cons i inos)
    ∙ first_seen-append [] (reverse inos) i
    ∙ ap (λ b. first_seen [] (reverse inos) ++ (if b then [] else i ∷ [])) (contains-reverse inos i)

-- The inodes of a batch are the requested ones, each once, at the place of its last request.
pub deduped-last_requests : (pending : List ℕ) → deduped pending ≡ last_requests pending
unfolding deduped last_requests first_seen
deduped-last_requests [] = refl
deduped-last_requests (i ∷ inos) =
    ap reverse (first_seen-reverse i inos)
    ∙ reverse-append (first_seen [] (reverse inos)) (if contains inos i then [] else i ∷ [])
    ∙ elim (Bool-cases (contains inos i)) [
      | inl again ↦ rw again (deduped-last_requests inos)
      | inr last ↦ rw last (ap (◌∷◌ i) (deduped-last_requests inos))
    ]
