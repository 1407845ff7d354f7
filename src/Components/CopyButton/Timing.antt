-- ===== src/Components/CopyButton/Timing.antt =====
-- website/components/copy-button.tsx: the click handler `copy`, with what it waits for. The
-- clipboard settles each write once, as written or as refused, and each timer fires once; in which
-- order is up to the browser.
use mathlib.Core.Option.{some-injective}
use mathlib.Core.Path.{subst}
use kube_cell.Common.{
  Bool-cases, inl, inr, ℕ, zero, suc, ◌+◌, ◌<◌, Bool, true, false, List, [], ◌∷◌, Option, none,
  some, Text, ◌≡◌, refl, arith, ◌>>=◌,
}
use kube_cell.Regex.Loop.{bind_some}

-- The state `copied`, the writes that the clipboard has not settled, the timers that are set, and
-- what the button last wrote to the clipboard.
pub record CopyState : Type 0 where
  pub copied : Bool
  pub writes : ℕ
  pub timers : ℕ
  pub clipboard : Option Text

pub data Event : Type 0 where
  click written refused fires : Event

abbrev pub fresh : CopyState
fresh = record { copied = false; writes = 0; timers = 0; clipboard = none }

-- One of a number of things that are waited for settles; `none` if there is none.
abbrev settle : ℕ → (ℕ → CopyState) → Option CopyState
settle zero next = none
settle (suc left) next = some (next left)

-- One event of the button that copies `value`; `none` if there is no write or no timer that it
-- could settle.
unfoldable pub handle : Text → Event → CopyState → Option CopyState
handle value click s = some (record s { writes = suc s.writes })
handle value written s = settle s.writes (λ left. record s {
  copied = true;
  writes = left;
  timers = suc s.timers;
  clipboard = some value;
})
handle value refused s = settle s.writes (λ left. record s { copied = false; writes = left })
handle value fires s = settle s.timers (λ left. record s { copied = false; timers = left })

unfoldable pub run_events : Text → List Event → CopyState → Option CopyState
unfolding handle
run_events value [] s = some s
run_events value (event ∷ events) s = do next ← handle value event s; run_events value events next

abbrev same : Event → Event → Bool
same click click = true
same written written = true
same refused refused = true
same fires fires = true
same _ _ = false

abbrev one_if : Bool → ℕ
one_if true = 1
one_if false = 0

-- How often an event happens.
abbrev pub count : Event → List Event → ℕ
count event [] = 0
count event (e ∷ es) = one_if (same event e) + count event es

pub settled :
    (waiting : ℕ) (make : ℕ → CopyState) (next : CopyState)
    → settle waiting make ≡ some next
    → (left : ℕ) × (waiting ≡ suc left) × (make left ≡ next)
settled zero make next h = cc
settled (suc left) make next h = (left, refl, some-injective _ _ h)

-- While the button says "Copied", a timer is set.
abbrev Ends : CopyState → Type 0
Ends s = s.copied ≡ true → 0 < s.timers

handle-Ends :
    (value : Text) (event : Event) (s next : CopyState)
    → handle value event s ≡ some next
    → Ends s
    → Ends next
unfolding handle
handle-Ends value click s next h ends = subst Ends (some-injective _ _ h) ends
handle-Ends value written s next h ends =
    let (left, e, made) = settled s.writes _ next h in subst Ends made (λ _. omega arith)
handle-Ends value refused s next h ends =
    let (left, e, made) = settled s.writes _ next h in subst Ends made (λ shows. cc)
handle-Ends value fires s next h ends =
    let (left, e, made) = settled s.timers _ next h in subst Ends made (λ shows. cc)

run_events-Ends :
    (value : Text) (events : List Event) (s last : CopyState)
    → run_events value events s ≡ some last
    → Ends s
    → Ends last
unfolding run_events
run_events-Ends value [] s last h ends = subst Ends (some-injective _ _ h) ends
run_events-Ends value (event ∷ events) s last h ends =
    let (next, made, later) = bind_some (handle value event s) _ h in
    run_events-Ends value events next last later (handle-Ends value event s next made ends)

-- In every order of clicks, settled writes and fired timers, as long as the button says "Copied" a
-- timer is set.
pub run_events_copied :
    (value : Text) (events : List Event) (last : CopyState)
    → run_events value events fresh ≡ some last
    → last.copied ≡ true
    → 0 < last.timers
run_events_copied value events last h = run_events-Ends value events fresh last h (λ shows. cc)

-- While the button says "Copied", the clipboard has the text.
abbrev Copies : Text → CopyState → Type 0
Copies value s = s.copied ≡ true → s.clipboard ≡ some value

handle-Copies :
    (value : Text) (event : Event) (s next : CopyState)
    → handle value event s ≡ some next
    → Copies value s
    → Copies value next
unfolding handle
handle-Copies value click s next h copies = subst (Copies value) (some-injective _ _ h) copies
handle-Copies value written s next h copies =
    let (left, e, made) = settled s.writes _ next h in subst (Copies value) made (λ shows. refl)
handle-Copies value refused s next h copies =
    let (left, e, made) = settled s.writes _ next h in subst (Copies value) made (λ shows. cc)
handle-Copies value fires s next h copies =
    let (left, e, made) = settled s.timers _ next h in subst (Copies value) made (λ shows. cc)

pub run_events-Copies :
    (value : Text) (events : List Event) (s last : CopyState)
    → run_events value events s ≡ some last
    → Copies value s
    → Copies value last
unfolding run_events
run_events-Copies value [] s last h copies = subst (Copies value) (some-injective _ _ h) copies
run_events-Copies value (event ∷ events) s last h copies =
    let (next, made, later) = bind_some (handle value event s) _ h in
    run_events-Copies value events next last later (handle-Copies value event s next made copies)

-- How many writes and timers two states wait for, if events happened this often between them.
abbrev Balanced : (clicks writes refusals fired : ℕ) → CopyState → CopyState → Type 0
Balanced clicks writes refusals fired s t =
    (s.writes + clicks ≡ t.writes + writes + refusals) × (s.timers + writes ≡ t.timers + fired)

abbrev BalancedBy : List Event → CopyState → CopyState → Type 0
BalancedBy events =
    Balanced (count click events) (count written events) (count refused events) (count fires events)

handle-BalancedBy :
    (value : Text) (event : Event) (s next : CopyState)
    → handle value event s ≡ some next
    → BalancedBy (event ∷ []) s next
unfolding handle
handle-BalancedBy value click s next h =
    subst (BalancedBy (click ∷ []) s) (some-injective _ _ h) (omega arith, omega arith)
handle-BalancedBy value written s next h =
    let (left, e, made) = settled s.writes _ next h in
    subst (BalancedBy (written ∷ []) s) made (omega arith, omega arith)
handle-BalancedBy value refused s next h =
    let (left, e, made) = settled s.writes _ next h in
    subst (BalancedBy (refused ∷ []) s) made (omega arith, omega arith)
handle-BalancedBy value fires s next h =
    let (left, e, made) = settled s.timers _ next h in
    subst (BalancedBy (fires ∷ []) s) made (omega arith, omega arith)

run_events-BalancedBy :
    (value : Text) (events : List Event) (s last : CopyState)
    → run_events value events s ≡ some last
    → BalancedBy events s last
unfolding run_events
run_events-BalancedBy value [] s last h =
    subst (BalancedBy [] s) (some-injective _ _ h) (omega arith, omega arith)
run_events-BalancedBy value (event ∷ events) s last h =
    let (next, made, later) = bind_some (handle value event s) _ h in
    let first = handle-BalancedBy value event s next made in
    let rest = run_events-BalancedBy value events next last later in
    (omega (arith, first.0, rest.0), omega (arith, first.1, rest.1))

-- When each click's write has been written or refused and each written one's timer has fired, the
-- clipboard has no write left to settle, and the button no longer says "Copied".
pub run_events_settled :
    (value : Text) (events : List Event) (last : CopyState)
    → run_events value events fresh ≡ some last
    → count click events ≡ count written events + count refused events
    → count written events ≡ count fires events
    → (last.writes ≡ 0) × (last.copied ≡ false)
run_events_settled value events last h settle_all fire_all =
    let (writes, timers) = run_events-BalancedBy value events fresh last h in
    (
      omega arith,
      elim (Bool-cases last.copied) [
        | inl shows ↦ absurd (omega (arith, run_events_copied value events last h shows))
        | inr hides ↦ hides
      ],
    )
