-- ===== src/User/Pingpong.antt =====
-- The bouncing character, syscalls/ece391pingpong.c. Its macros are sums without parentheses:
-- BUFMAX is 81, STARTLOOP 2 and LOOPMAX 78.
use ece391linux_os.Prelude.{set, ◌==◌, if◌then◌else◌, ℕ, zero, suc, ◌+◌, ◌-◌, ◌%◌, List, [], ◌∷◌}
use ece391linux_os.Prelude.Int.{ℤ, pos}
use ece391linux_os.Prelude.Range.{update_range}
use ece391linux_os.User.{Run, ◌>>=◌, ◌>>◌, pure, no_return, Calls, bytes, ece391_fdputs}

-- The loop that clears the inner portion of the world.
unfoldable pub clear_inner : List ℕ → List ℕ
clear_inner buf = update_range 76 2 (λ _. b' ') buf

-- The buffer with its walls, before the first frame.
unfoldable pub first_world : List ℕ → List ℕ
first_world buf =
    set (set (set (set (update_range 81 0 (λ _. b' ') buf) 80 0) 79 b'\n') 78 b'|') 1 b'|'

abbrev pub draw : ℕ → ℕ → List ℕ → List ℕ
draw j curchar buf = set (clear_inner buf) j curchar

abbrev pub next_char : ℕ → ℕ
next_char curchar = if curchar == b'Z' then b'A' else (curchar + 1) % 256

-- `garbage` is what the four bytes of that variable hold.
module _ {W : Type 0} (c : Calls W) (garbage : List ℕ) (rtc_fd : ℤ) where
  -- One frame, and the wait for the clock.
  unfoldable pub frame : ℕ → ℕ → List ℕ → Run W (List ℕ)
  frame j curchar buf = do
    let world = draw j curchar buf
    ece391_fdputs c (pos 1) world
    c.read rtc_fd garbage (pos 4)
    pure world

  -- `n` frames outwards from `j`, and `n` back.
  unfoldable pub move_out : ℕ → ℕ → ℕ → List ℕ → Run W (List ℕ)
  move_out zero j curchar buf = pure buf
  move_out (suc n) j curchar buf = do world ← frame j curchar buf; move_out n (j + 1) curchar world

  unfoldable pub bounce_back : ℕ → ℕ → ℕ → List ℕ → Run W (List ℕ)
  bounce_back zero j curchar buf = pure buf
  bounce_back (suc n) j curchar buf = do
    world ← frame j curchar buf
    bounce_back n (j - 1) curchar world

  -- The loop `while (1)`, which never ends.
  unfoldable pub pingpong_loop : ℕ → ℕ → List ℕ → Run W ℤ
  pingpong_loop zero curchar buf = no_return
  pingpong_loop (suc n) curchar buf = do
    out ← move_out 76 2 curchar buf
    back ← bounce_back 76 77 curchar out
    pingpong_loop n (next_char curchar) back

-- The clock is set to 32 ticks a second.
unfoldable pub pingpong : {W : Type 0} → Calls W → List ℕ → ℕ → List ℕ → Run W ℤ
pingpong c garbage n buf = do
  rtc_fd ← c.open_file (bytes "rtc")
  c.write rtc_fd (32 ∷ 0 ∷ 0 ∷ 0 ∷ []) (pos 4)
  pingpong_loop c garbage rtc_fd n b'A' (first_world buf)
