-- ===== src/Flush/Debounce.antt =====
-- The batches that `flush_loop` of src/virtual_fs/flush.rs makes of the signals. Each signal comes with
-- the time that the loop waits for it; the list ends where the channel is closed. A `Duration` is its
-- nanoseconds.
use hf_mount.Base.{
  ℕ, zero, suc, ◌+◌, ◌-◌, ◌≤◌, min, ◌≡◌, refl, sym, ◌∙◌, ap, inl, inr, List, [], ◌∷◌, ◌++◌, map,
  length, arith, ltb, nat_beq, if◌then◌else◌, Bool-cases, ltb→lt,
}

pub data FlushSignal : Type 0 where
  dirty : ℕ → FlushSignal
  wake_deletes : FlushSignal

abbrev pub Incoming : Type 0
Incoming = List (ℕ × FlushSignal)

-- The inner loop, since so long after the window began: the signals it takes, what stays in the
-- channel, and how long the window was open.
unfoldable pub collect : ℕ → ℕ → ℕ → Incoming → List FlushSignal × Incoming × ℕ
collect debounce window elapsed [] = ([], [], elapsed)
collect debounce window elapsed ((wait, signal) ∷ incoming) =
    let remaining = window - elapsed in
    let timeout = min debounce remaining in
    let (signals, left, open_for) = collect debounce window (elapsed + wait) incoming in
    if nat_beq remaining 0
    then ([], (wait, signal) ∷ incoming, elapsed)
    else if ltb wait timeout
    then (signal ∷ signals, left, open_for)
    else ([], (wait, signal) ∷ incoming, elapsed + timeout)

-- The batches of signals until the channel is closed.
unfoldable pub flush_rounds : ℕ → ℕ → ℕ → Incoming → List (List FlushSignal)
flush_rounds zero debounce window incoming = []
flush_rounds (suc fuel) debounce window [] = []
flush_rounds (suc fuel) debounce window ((wait, first) ∷ incoming) =
    let (signals, left, open_for) = collect debounce window 0 incoming in
    (first ∷ signals) ∷ flush_rounds fuel debounce window left

-- What `flush_batch` is called with.
unfoldable pub dirty_inos : List FlushSignal → List ℕ
dirty_inos [] = []
dirty_inos (dirty ino ∷ signals) = ino ∷ dirty_inos signals
dirty_inos (wake_deletes ∷ signals) = dirty_inos signals

abbrev pub concat : List (List FlushSignal) → List FlushSignal
concat [] = []
concat (batch ∷ batches) = batch ++ concat batches

abbrev pub signals_of : Incoming → List FlushSignal
signals_of incoming = map (λ s. s.1) incoming

-- What one window takes and leaves.
record IsCollected (window : ℕ) (incoming : Incoming) (r : List FlushSignal × Incoming × ℕ)
    : Type 0 where
  whole : signals_of incoming ≡ r.0 ++ signals_of r.1
  fewer : length r.1 ≤ length incoming
  bounded : r.2 ≤ window

collect-IsCollected :
    (debounce window elapsed : ℕ) (incoming : Incoming)
    → elapsed ≤ window
    → IsCollected window incoming (collect debounce window elapsed incoming)
unfolding collect
collect-IsCollected debounce window elapsed [] within = record {
  whole = refl;
  fewer = omega arith;
  bounded = within;
}
collect-IsCollected debounce window elapsed ((wait, signal) ∷ incoming) within =
    let remaining = window - elapsed in
    let timeout = min debounce remaining in
    elim (Bool-cases (nat_beq remaining 0)) [
      | inl over ↦ rw over (record { whole = refl; fewer = omega arith; bounded = within })
      | inr more ↦ elim (Bool-cases (ltb wait timeout)) [
        | inr late ↦
            rw (more, late) (record { whole = refl; fewer = omega arith; bounded = omega arith })
        | inl early ↦
            let soon = ltb→lt wait timeout early in
            let rest =
              collect-IsCollected debounce window (elapsed + wait) incoming (omega arith) in
            rw (more, early)
              (record {
                whole = ap (◌∷◌ signal) rest.whole;
                fewer = omega (arith, rest.fewer);
                bounded = rest.bounded;
              })
      ]
    ]

-- No batch waits longer than its window, however the signals come.
pub collect_bounded :
    (debounce window : ℕ) (incoming : Incoming) → (collect debounce window 0 incoming).2 ≤ window
collect_bounded debounce window incoming =
    (collect-IsCollected debounce window 0 incoming (omega arith)).bounded

rounds_whole :
    (fuel debounce window : ℕ) (incoming : Incoming)
    → length incoming ≤ fuel
    → concat (flush_rounds fuel debounce window incoming) ≡ signals_of incoming
unfolding flush_rounds
rounds_whole zero debounce window [] enough = refl
rounds_whole zero debounce window (s ∷ incoming) enough = absurd (omega arith)
rounds_whole (suc fuel) debounce window [] enough = refl
rounds_whole (suc fuel) debounce window ((wait, first) ∷ incoming) enough =
    let c = collect-IsCollected debounce window 0 incoming (omega arith) in
    let r = collect debounce window 0 incoming in
    ap (λ l. (first ∷ r.0) ++ l) (rounds_whole fuel debounce window r.1 (omega (arith, c.fewer)))
    ∙ ap (◌∷◌ first) (sym c.whole)

-- Until the channel is closed every signal goes into a batch, once and in order, when the fuel is at
-- least the number of signals; and a window that begins with the signals that come is open for no
-- longer than the batch window.
pub flush_rounds-signals :
    (fuel debounce window : ℕ) (incoming : Incoming)
    → length incoming ≤ fuel
    → (concat (flush_rounds fuel debounce window incoming) ≡ signals_of incoming)
      × ((collect debounce window 0 incoming).2 ≤ window)
flush_rounds-signals fuel debounce window incoming enough =
    (rounds_whole fuel debounce window incoming enough, collect_bounded debounce window incoming)
