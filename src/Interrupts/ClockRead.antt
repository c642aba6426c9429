-- ===== src/Interrupts/ClockRead.antt =====
-- The wait of `rtc_read` (student-distrib/rtc_driver.c) for `handle_rtc` (interrupts.c).
use ece391linux_os.Prelude.{
  length, get_or, set, length-set, get_or-set_self, get_or-set_ne, ltb, if◌then◌else◌, ℕ, zero, suc,
  ◌+◌, ◌<◌, ◌≡◌, refl, sym, ap, ◌∙◌, ◌≢◌, true, false, Option, none, some, List, [], ◌∷◌, ◌++◌,
  arith,
}
use mathlib.Core.List.{append-nil}
use ece391linux_os.Prelude.Int.{ℤ, pos}
use ece391linux_os.Interrupts.{Pic, handle_rtc, rtc_read_start}
use ece391linux_os.Rtc.{Clock}

-- What happens while a process waits: an interrupt of the clock, or the start of a read by the
-- process of another terminal.
pub data Event : Type 0 where
  clock_interrupt : Event
  read_by : ℕ → Event

abbrev pub happens : Event → Clock → Pic → Clock × Pic
happens clock_interrupt c p = handle_rtc c p
happens (read_by terminal) c p = (
  record (rtc_read_start (record c { current_process = terminal })) {
    current_process = c.current_process;
  },
  p,
)

-- How a read ends: the clock, the controllers, and the events that are still to come.
pub record Ended : Type 0 where
  pub clock : Clock
  pub pic : Pic
  pub later : List Event

abbrev pub count_of : ℕ → Clock → ℕ
count_of cip c = get_or c.rtc_virtual_interupt cip 0

-- The loop `while (rtc_virtual_interupt[cip] < 1)`; `none` where it waits on.
unfoldable pub rtc_wait : ℕ → List Event → Clock → Pic → Option Ended
rtc_wait cip [] c p =
    if ltb (count_of cip c) 1 then none else some (record { clock = c; pic = p; later = [] })
rtc_wait cip (e ∷ events) c p =
    let rest = rtc_wait cip events (happens e c p).0 (happens e c p).1 in
    if ltb (count_of cip c) 1
    then rest
    else some (record { clock = c; pic = p; later = e ∷ events })

-- The count is reset before the wait and behind it; the value returned is 0.
unfoldable pub rtc_read : List Event → Clock → Pic → Option (Ended × ℤ)
rtc_read events c p =
    let cip = c.current_process in
    elim (rtc_wait cip events (rtc_read_start c) p) [
      | none ↦ none
      | some out ↦ some (
        record out {
          clock = record out.clock {
            rtc_virtual_interupt = set out.clock.rtc_virtual_interupt cip 0;
          };
        },
        pos 0,
      )
    ]

-- Events of other terminals only.
abbrev pub AreOthers : ℕ → List Event → Type 0
AreOthers cip [] = Unit
AreOthers cip (clock_interrupt ∷ events) = ⊥
AreOthers cip (read_by terminal ∷ events) = (terminal ≢ cip) × AreOthers cip events

-- A read goes on waiting over them.
rtc_wait-others :
    (cip : ℕ) (before after : List Event) (c : Clock) (p : Pic)
    → AreOthers cip before
    → count_of cip c ≡ 0
    → (d : Clock) × (rtc_wait cip (before ++ after) c p ≡ rtc_wait cip after d p)
      × (count_of cip d ≡ 0)
      × (length d.rtc_virtual_interupt ≡ length c.rtc_virtual_interupt)
unfolding rtc_wait rtc_read_start
rtc_wait-others cip [] after c p all z = (c, refl, z, refl)
rtc_wait-others cip (clock_interrupt ∷ before) after c p all z = absurd all
rtc_wait-others cip (read_by terminal ∷ before) after c p (ne, all) z =
    let waiting : ltb (count_of cip c) 1 ≡ true = ground arith in
    let c' = record c { rtc_virtual_interupt = set c.rtc_virtual_interupt terminal 0 } in
    let same = get_or-set_ne c.rtc_virtual_interupt terminal cip 0 0 ne ∙ z in
    let (d, waits_on, zero_d, size) = rtc_wait-others cip before after c' p all same in
    (d, rw waiting waits_on, zero_d, size ∙ length-set c.rtc_virtual_interupt terminal 0)

-- The interrupt raises the count of each of the three terminals.
handle_rtc-count :
    (cip : ℕ) (c : Clock) (p : Pic)
    → cip < 3
    → length c.rtc_virtual_interupt ≡ 3
    → (count_of cip (handle_rtc c p).0 ≡ suc (count_of cip c))
      × (length (handle_rtc c p).0.rtc_virtual_interupt ≡ 3)
unfolding handle_rtc
handle_rtc-count cip c p h e = counts cip c.rtc_virtual_interupt h e
  where
    counts :
        (cip : ℕ) (xs : List ℕ)
        → cip < 3
        → length xs ≡ 3
        → let one = set xs 0 (get_or xs 0 0 + 1) in
          let two = set one 1 (get_or one 1 0 + 1) in
          let three = set two 2 (get_or two 2 0 + 1) in
          (get_or three cip 0 ≡ suc (get_or xs cip 0)) × (length three ≡ 3)
    counts cip [] h e = absurd (omega arith)
    counts cip (x ∷ []) h e = absurd (omega arith)
    counts cip (x ∷ y ∷ []) h e = absurd (omega arith)
    counts zero (x ∷ y ∷ z ∷ []) h e = (omega arith, refl)
    counts (suc zero) (x ∷ y ∷ z ∷ []) h e = (omega arith, refl)
    counts (suc (suc zero)) (x ∷ y ∷ z ∷ []) h e = (omega arith, refl)
    counts (suc (suc (suc k))) (x ∷ y ∷ z ∷ []) h e = absurd (omega arith)
    counts cip (x ∷ y ∷ z ∷ t ∷ xs) h e = absurd (omega arith)

-- A wait at count 0 ends with the interrupt, and not without.
rtc_wait-ends :
    (cip : ℕ) (after : List Event) (c : Clock) (p : Pic)
    → cip < 3
    → length c.rtc_virtual_interupt ≡ 3
    → count_of cip c ≡ 0
    → (rtc_wait cip [] c p ≡ none)
      × (rtc_wait cip (clock_interrupt ∷ after) c p
          ≡ some (record { clock = (handle_rtc c p).0; pic = (handle_rtc c p).1; later = after }))
unfolding rtc_wait
rtc_wait-ends cip after c p h size z =
    let still : ltb (count_of cip c) 1 ≡ true = ground arith in
    let goes_off : ltb (count_of cip (handle_rtc c p).0) 1 ≡ false =
      ground (arith, (handle_rtc-count cip c p h size).0) in
    (rw still refl, rw still (at_once after goes_off))
  where
    at_once :
        (after : List Event)
        → ltb (count_of cip (handle_rtc c p).0) 1 ≡ false
        → rtc_wait cip after (handle_rtc c p).0 (handle_rtc c p).1
          ≡ some (record { clock = (handle_rtc c p).0; pic = (handle_rtc c p).1; later = after })
    at_once [] goes_off = rw goes_off refl
    at_once (e ∷ after) goes_off = rw goes_off refl

-- A read of the clock by one of the three terminals' processes waits over the reads of the other terminals, however many, and does not come back without an interrupt. With the first interrupt it returns 0, at once and with its count withdrawn; what comes later is left.
pub rtc_read-returns :
    (before after : List Event) (c : Clock) (p : Pic)
    → c.current_process < 3
    → length c.rtc_virtual_interupt ≡ 3
    → AreOthers c.current_process before
    → (rtc_read before c p ≡ none)
      × ((out : Ended) × (rtc_read (before ++ (clock_interrupt ∷ after)) c p ≡ some (out, pos 0))
          × (count_of c.current_process out.clock ≡ 0)
          × (out.later ≡ after))
unfolding rtc_read rtc_read_start
rtc_read-returns before after c p h size all =
    let cip = c.current_process in
    let begun = rtc_read_start c in
    let withdrawn : count_of cip begun ≡ 0 =
      get_or-set_self c.rtc_virtual_interupt cip 0 0 (omega arith) in
    let sized : length begun.rtc_virtual_interupt ≡ 3 =
      length-set c.rtc_virtual_interupt cip 0 ∙ size in
    let (d, waits_on, zero_d, size_d) = rtc_wait-others cip before [] begun p all withdrawn in
    let (e, arrives, zero_e, size_e) =
      rtc_wait-others cip before (clock_interrupt ∷ after) begun p all withdrawn in
    let without = waits_on ∙ (rtc_wait-ends cip after d p h (size_d ∙ sized) zero_d).0 in
    let with_it = arrives ∙ (rtc_wait-ends cip after e p h (size_e ∙ sized) zero_e).1 in
    let none_left : rtc_wait cip before begun p ≡ none =
      ap (λ es. rtc_wait cip es begun p) (sym (append-nil before)) ∙ without in
    let counts = (handle_rtc-count cip e p h (size_e ∙ sized)).1 in
    (
      rw (none_left, rtc_read) refl,
      (
        record {
          clock = record (handle_rtc e p).0 {
            rtc_virtual_interupt = set (handle_rtc e p).0.rtc_virtual_interupt cip 0;
          };
          pic = (handle_rtc e p).1;
          later = after;
        },
        rw (with_it, rtc_read) refl,
        get_or-set_self (handle_rtc e p).0.rtc_virtual_interupt cip 0 0 (omega arith),
        refl,
      ),
    )
