-- ===== src/User/Counter.antt =====
-- The counter, syscalls/ece391counter.c.
pub mod Counting
use ece391linux_os.Prelude.{
  get_or, set, ltb, ◌==◌, if◌then◌else◌, ℕ, zero, suc, ◌+◌, true, false, ◌&&◌, ◌||◌, List,
}
use ece391linux_os.Prelude.Int.{ℤ, pos, pos_part, eqb_ℤ, minus_one}
use ece391linux_os.Syscalls.{read}
use ece391linux_os.User.{Run, ◌>>=◌, ◌>>◌, pure, Calls, bytes, ece391_fdputs}
use ece391linux_os.User.Support.{ece391_strlen, ece391_itoa}

-- The number to count to; a choice that the tests let through and no case names counts to 0.
abbrev pub chosen_max : ℕ → ℕ
chosen_max choice =
    if choice == b'0'
    then 100
    else (if choice == b'1' then 10000 else (if choice == b'2' then 100000 else 0))

module _ {W : Type 0} (c : Calls W) where
  -- The last loop: `n` rounds from `i` on.
  unfoldable pub count_loop : ℕ → ℕ → List ℕ → Run W ℤ
  count_loop zero i buf = pure (pos 0)
  count_loop (suc n) i buf = do
    let digits = ece391_itoa (i + 1) buf 10
    ece391_fdputs c (pos 1) digits
    ece391_fdputs c (pos 1) (bytes "\n")
    count_loop n (i + 1) digits

  unfoldable pub counter : List ℕ → Run W ℤ
  counter buf = do
    ece391_fdputs c (pos 1) (bytes "Enter the Test Number: (0): 100, (1): 10000, (2): 100000\n")
    r ← c.read (pos 0) buf (pos 1023)
    elim (eqb_ℤ r.ret minus_one) [
      | true ↦ do
        ece391_fdputs c (pos 1) (bytes "Can't read the number from keyboard.\n")
        pure (pos 3)
      | false ↦ do
        let line = set r.buf (pos_part r.ret) 0
        let choice = get_or line 0 0
        let len = ece391_strlen line
        if ltb 2 len || (len == 2 && (ltb choice b'0' || ltb b'2' choice))
            then (do ece391_fdputs c (pos 1) (bytes "Wrong Choice!\n"); pure (pos 0))
            else count_loop (chosen_max choice) 0 line
    ]
