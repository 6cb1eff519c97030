-- ===== src/MemorySystem/Keyboard.antt =====
-- The keyboard buffer of src/MemorySystem.cpp (two globals and `check_host_keyboard`) and the
-- terminal. What the successive non-blocking reads of the terminal give is a list that the host
-- chooses: `none` is a read with no key waiting, and after the list's end no key comes.
use simple_rv.Prelude.{ℕ, Bool, true, Option, none, some, List, [], ◌∷◌}
use simple_rv.Prelude.{if◌then◌else◌}

pub record Host : Type 0 where
  pub buffered_char : ℕ
  pub has_buffered_char : Bool
  pub input : List (Option ℕ)
  pub output : List ℕ

unfoldable pub poll : List (Option ℕ) → Host → Host
poll [] h = h
poll (none ∷ rest) h = record h { input = rest }
poll (some ch ∷ rest) h = record h { buffered_char = ch; has_buffered_char = true; input = rest }

unfoldable pub check_host_keyboard : Host → Host
unfolding poll
check_host_keyboard h = if h.has_buffered_char then h else poll h.input h
