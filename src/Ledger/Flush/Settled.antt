-- ===== src/Ledger/Flush/Settled.antt =====
-- The row of a scope and its hash agree up to the deltas, whatever runs between a flush's commands.
use gateyes.Common.{
  ◌≡◌, true, String, List, [], ◌∷◌, ℤ, pos, ◌+ℤ◌, ◌-ℤ◌, ◌≤ℤ◌, arith, ints, pos_part, neg_part, ap,
  subst, Bool-cases, inl, inr, ◌&&◌, ◌<◌, if◌then◌else◌, ltb_ℤ,
}
use gateyes.Ledger.{BudgetHash}
use gateyes.Ledger.Flush.{
  Row, Phase, idle, read_spent, read_both, updated, spent_settled, World, Charge, spending, holding,
  committing, unholding, flush_step, give_up, Event, script_runs, flush_goes_on, flush_gives_up,
  flush_drops_error, drop_error, step, run, load, is_zero, update_row,
}

-- What the row has got already and the deltas still hold.
abbrev twice_spent : Phase → ℤ
twice_spent (updated s r) = s
twice_spent _ = pos 0

abbrev twice_reserved : Phase → ℤ
twice_reserved (updated s r) = r
twice_reserved (spent_settled r) = r
twice_reserved _ = pos 0

-- What an event leaves in a delta although the row has got it: the amount of a command whose error
-- was dropped.
abbrev pub left_spent : Event → Phase → ℤ
left_spent flush_drops_error (updated s r) = s
left_spent _ _ = pos 0

abbrev pub left_reserved : Event → Phase → ℤ
left_reserved flush_drops_error (spent_settled r) = r
left_reserved _ _ = pos 0

-- All that the events leave, from a world on.
unfoldable pub all_left : (Event → Phase → ℤ) → List Event → World → ℤ
unfolding step
all_left left [] w = pos 0
all_left left (e ∷ es) w = left e w.phase +ℤ all_left left es (step e w)

-- `x` and `y` were left by earlier events.
abbrev IsSettled : ℤ → ℤ → World → Type 0
IsSettled x y w =
    (w.row.spent_usd +ℤ w.hash.delta_spent ≡ w.hash.spent +ℤ (twice_spent w.phase +ℤ x))
    × (w.hash.reserved +ℤ (twice_reserved w.phase +ℤ y)
        ≤ℤ w.row.reserved_usd +ℤ w.hash.delta_reserved)

-- Charging both sides of the balance.
both-add : (a d s p x : ℤ) → a +ℤ d ≡ s +ℤ p → a +ℤ (d +ℤ x) ≡ s +ℤ x +ℤ p
both-add a d s p x h = omega (ints, ap pos_part h, ap neg_part h)

-- The row gets the delta that is pending from now on.
row-add : (a d s x l : ℤ) → a +ℤ d ≡ s +ℤ (pos 0 +ℤ l) → a +ℤ x +ℤ d ≡ s +ℤ (x +ℤ l)
row-add a d s x l h = omega (ints, ap pos_part h, ap neg_part h)

-- The delta loses what was pending.
delta-sub : (a d s x l : ℤ) → a +ℤ d ≡ s +ℤ (x +ℤ l) → a +ℤ (d -ℤ x) ≡ s +ℤ (pos 0 +ℤ (l +ℤ pos 0))
delta-sub a d s x l h = omega (ints, ap pos_part h, ap neg_part h)

-- The delta keeps it.
delta-left : (a d s x l : ℤ) → a +ℤ d ≡ s +ℤ (x +ℤ l) → a +ℤ d ≡ s +ℤ (pos 0 +ℤ (l +ℤ x))
delta-left a d s x l h = omega (ints, ap pos_part h, ap neg_part h)

-- An event that leaves nothing.
none-left : (a s p l : ℤ) → a ≡ s +ℤ (p +ℤ l) → a ≡ s +ℤ (p +ℤ (l +ℤ pos 0))
none-left a s p l h = omega (ints, ap pos_part h, ap neg_part h)

is_zero-parts : (x : ℤ) → is_zero x ≡ true → pos_part x ≡ neg_part x
is_zero-parts x z = ground arith

zero_pending :
    (a d s x l : ℤ)
    → is_zero x ≡ true
    → a +ℤ d ≡ s +ℤ (x +ℤ l)
    → a +ℤ d ≡ s +ℤ (pos 0 +ℤ (l +ℤ pos 0))
zero_pending a d s x l z h = omega (ints, ap pos_part h, ap neg_part h, is_zero-parts x z)

zero-left : (x y : ℤ) (w : World) → IsSettled x y w → IsSettled (x +ℤ pos 0) (y +ℤ pos 0) w
zero-left x y w (s, r) = (none-left _ w.hash.spent (twice_spent w.phase) x s, omega ints)

charge-IsSettled :
    (x y : ℤ) (c : Charge) (w : World) → IsSettled x y w → IsSettled x y (step (script_runs c) w)
unfolding step
charge-IsSettled x y (spending a) w (s, r) =
    (both-add w.row.spent_usd w.hash.delta_spent w.hash.spent (twice_spent w.phase +ℤ x) a s, r)
charge-IsSettled x y (holding a) w (s, r) = (s, omega ints)
charge-IsSettled x y (committing a) w (s, r) = (
  both-add w.row.spent_usd w.hash.delta_spent w.hash.spent (twice_spent w.phase +ℤ x) a s,
  omega ints,
)
charge-IsSettled x y (unholding a) w (s, r) = (s, omega ints)

below_zero : (x : ℤ) → ltb_ℤ x (pos 0) ≡ true → pos_part x < neg_part x
below_zero x h = ground arith

-- The column that is kept at zero or above holds no less than the ledger does.
update-reserved :
    (v d rv x l : ℤ)
    → rv +ℤ (pos 0 +ℤ l) ≤ℤ v +ℤ d
    → rv +ℤ (x +ℤ (l +ℤ pos 0)) ≤ℤ (if ltb_ℤ (v +ℤ x) (pos 0) then pos 0 else v +ℤ x) +ℤ d
update-reserved v d rv x l h = elim (Bool-cases (ltb_ℤ (v +ℤ x) (pos 0))) [
  | inl z ↦ rw z (omega (ints, below_zero (v +ℤ x) z))
  | inr z ↦ rw z (omega ints)
]

module _ (x y : ℤ) (hash : BudgetHash) (row : Row) where
  abbrev at_phase : Phase → World
  at_phase phase = record { hash = hash; row = row; phase = phase }

  flush_step-IsSettled :
      (phase : Phase)
      → IsSettled x y (at_phase phase)
      → IsSettled (x +ℤ pos 0) (y +ℤ pos 0) (flush_step (at_phase phase))
  unfolding flush_step update_row
  flush_step-IsSettled idle h = zero-left x y (at_phase idle) h
  flush_step-IsSettled (read_spent s) h = zero-left x y (at_phase (read_spent s)) h
  flush_step-IsSettled (read_both s r) (hs, hr) = elim (Bool-cases (is_zero s && is_zero r)) [
    | inl z ↦ rw z (zero-left x y (at_phase idle) (hs, hr))
    | inr z ↦ rw z (
      none-left _ hash.spent s x (row-add row.spent_usd hash.delta_spent hash.spent s x hs),
      update-reserved row.reserved_usd hash.delta_reserved hash.reserved r y hr,
    )
  ]
  flush_step-IsSettled (updated s r) (hs, hr) = elim (Bool-cases (is_zero s)) [
    | inl z ↦ rw z (zero_pending row.spent_usd hash.delta_spent hash.spent s x z hs, omega ints)
    | inr z ↦ rw z (delta-sub row.spent_usd hash.delta_spent hash.spent s x hs, omega ints)
  ]
  flush_step-IsSettled (spent_settled r) (hs, hr) = elim (Bool-cases (is_zero r)) [
    | inl z ↦ rw z (none-left _ hash.spent (pos 0) x hs, omega (ints, is_zero-parts r z))
    | inr z ↦ rw z (none-left _ hash.spent (pos 0) x hs, omega ints)
  ]

  give_up-IsSettled :
      (phase : Phase) → IsSettled x y (at_phase phase) → IsSettled x y (give_up (at_phase phase))
  unfolding give_up
  give_up-IsSettled idle h = h
  give_up-IsSettled (read_spent s) h = h
  give_up-IsSettled (read_both s r) h = h
  give_up-IsSettled (updated s r) h = h
  give_up-IsSettled (spent_settled r) h = h

  drop_error-IsSettled :
      (phase : Phase)
      → IsSettled x y (at_phase phase)
      → IsSettled
          (x +ℤ left_spent flush_drops_error phase)
          (y +ℤ left_reserved flush_drops_error phase)
          (drop_error (at_phase phase))
  unfolding drop_error
  drop_error-IsSettled idle h = zero-left x y (at_phase idle) h
  drop_error-IsSettled (read_spent s) h = zero-left x y (at_phase (read_spent s)) h
  drop_error-IsSettled (read_both s r) h = zero-left x y (at_phase (read_both s r)) h
  drop_error-IsSettled (updated s r) (hs, hr) =
      (delta-left row.spent_usd hash.delta_spent hash.spent s x hs, omega ints)
  drop_error-IsSettled (spent_settled r) (hs, hr) =
      (none-left _ hash.spent (pos 0) x hs, omega ints)

step-IsSettled :
    (x y : ℤ) (e : Event) (w : World)
    → IsSettled x y w
    → IsSettled (x +ℤ left_spent e w.phase) (y +ℤ left_reserved e w.phase) (step e w)
unfolding step
step-IsSettled x y (script_runs c) w h =
    zero-left x y (step (script_runs c) w) (charge-IsSettled x y c w h)
step-IsSettled x y flush_goes_on w h = flush_step-IsSettled x y w.hash w.row w.phase h
step-IsSettled x y flush_gives_up w h =
    zero-left x y (give_up w) (give_up-IsSettled x y w.hash w.row w.phase h)
step-IsSettled x y flush_drops_error w h = drop_error-IsSettled x y w.hash w.row w.phase h

add_assoc : (a b c : ℤ) → a +ℤ b +ℤ c ≡ a +ℤ (b +ℤ c)
add_assoc a b c = omega ints

run-IsSettled :
    (es : List Event) (x y : ℤ) (w : World)
    → IsSettled x y w
    → IsSettled (x +ℤ all_left left_spent es w) (y +ℤ all_left left_reserved es w) (run es w)
unfolding run all_left
run-IsSettled [] x y w h = zero-left x y w h
run-IsSettled (e ∷ es) x y w h =
    subst (λ z. IsSettled z (y +ℤ all_left left_reserved (e ∷ es) w) (run es (step e w)))
      (add_assoc x (left_spent e w.phase) (all_left left_spent es (step e w)))
      (subst
        (λ z.
          IsSettled (x +ℤ left_spent e w.phase +ℤ all_left left_spent es (step e w)) z
            (run es (step e w)))
        (add_assoc y (left_reserved e w.phase) (all_left left_reserved es (step e w)))
        (run-IsSettled es (x +ℤ left_spent e w.phase) (y +ℤ left_reserved e w.phase) (step e w)
          (step-IsSettled x y e w h)))

load-IsSettled :
    (budget : ℤ) (policy : String) (row : Row) → IsSettled (pos 0) (pos 0) (load budget policy row)
unfolding load
load-IsSettled budget policy row = (omega ints, omega ints)

add_zeros : (a b c : ℤ) → a ≡ b +ℤ (pos 0 +ℤ (pos 0 +ℤ c)) → a ≡ b +ℤ c
add_zeros a b c h = omega (ints, ap pos_part h, ap neg_part h)

-- When no flush is under way.
IsSettled-idle :
    (x y : ℤ) (w : World)
    → w.phase ≡ idle
    → IsSettled (pos 0 +ℤ x) (pos 0 +ℤ y) w
    → (w.row.spent_usd +ℤ w.hash.delta_spent ≡ w.hash.spent +ℤ x)
      × (w.hash.reserved +ℤ y ≤ℤ w.row.reserved_usd +ℤ w.hash.delta_reserved)
IsSettled-idle x y w i (s, r) = (
  add_zeros (w.row.spent_usd +ℤ w.hash.delta_spent) w.hash.spent x (
      subst
        (λ p.
          w.row.spent_usd +ℤ w.hash.delta_spent ≡ w.hash.spent +ℤ (twice_spent p +ℤ (pos 0 +ℤ x)))
        i s),
  (let r' : w.hash.reserved +ℤ (pos 0 +ℤ (pos 0 +ℤ y))
          ≤ℤ w.row.reserved_usd +ℤ w.hash.delta_reserved =
        subst
          (λ p.
            w.hash.reserved +ℤ (twice_reserved p +ℤ (pos 0 +ℤ y))
            ≤ℤ w.row.reserved_usd +ℤ w.hash.delta_reserved)
          i r in
      omega ints),
)

-- From the row's values on, whatever scripts run before, between and after the commands of flushes
-- that come through, give up, or drop the errors of their last commands: when no flush is under way,
-- the row's spent_usd and the delta that is still to flush make up what the ledger has as spent and,
-- once more, what was not taken from the delta because of a dropped error; and its reserved_usd and
-- delta make up no less than what the ledger has as reserved and what such errors left.
pub run-load :
    (budget : ℤ) (policy : String) (row : Row) (es : List Event)
    → (run es (load budget policy row)).phase ≡ idle
    → ((run es (load budget policy row)).row.spent_usd
          +ℤ (run es (load budget policy row)).hash.delta_spent
        ≡ (run es (load budget policy row)).hash.spent
          +ℤ all_left left_spent es (load budget policy row))
      × ((run es (load budget policy row)).hash.reserved
            +ℤ all_left left_reserved es (load budget policy row)
          ≤ℤ (run es (load budget policy row)).row.reserved_usd
            +ℤ (run es (load budget policy row)).hash.delta_reserved)
run-load budget policy row es i =
    IsSettled-idle _ _ (run es (load budget policy row)) i
      (run-IsSettled es (pos 0) (pos 0) (load budget policy row) (load-IsSettled budget policy row))

abbrev pub whole_flush : List Event
whole_flush = flush_goes_on ∷ flush_goes_on ∷ flush_goes_on ∷ flush_goes_on ∷ flush_goes_on ∷ []

zero_delta : (a d s : ℤ) → is_zero d ≡ true → a +ℤ d ≡ s → a ≡ s
zero_delta a d s z h = omega (ints, ap pos_part h, ap neg_part h, is_zero-parts d z)

-- A flush with nothing between its commands brings the row's spent_usd to what the ledger has as
-- spent, if the row and the delta made that up before.
pub run-whole_flush :
    (hash : BudgetHash) (row : Row)
    → row.spent_usd +ℤ hash.delta_spent ≡ hash.spent
    → (run whole_flush (record { hash = hash; row = row; phase = idle })).row.spent_usd ≡ hash.spent
unfolding run step
run-whole_flush hash row h =
    elim (Bool-cases (is_zero hash.delta_spent && is_zero hash.delta_reserved)) [
      | inl z ↦ rw z (zero_delta row.spent_usd hash.delta_spent hash.spent (ground arith) h)
      | inr z ↦ rw z h
    ]
