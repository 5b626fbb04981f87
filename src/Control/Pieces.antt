-- ===== src/Control/Pieces.antt =====
-- src/socket.c: `socket_handle_client`, lines that arrive in pieces.
use snapcastc.Base.{
  ℕ, zero, suc, ◌+◌, ◌-◌, ◌≤◌, ◌≡◌, refl, ap, ◌∙◌, ◌||◌, List, [], ◌∷◌, ◌++◌, arith, length, take,
  drop,
}
use snapcastc.Control.Socket.{
  linebuffer_size, SocketClient, read_into, has_newline, is_line_complete,
}
use snapcastc.Control.LineBuffer.{IsLineBuffer}

has_newline-append : (xs ys : List ℕ) → has_newline (xs ++ ys) ≡ (has_newline xs || has_newline ys)
unfolding has_newline
has_newline-append [] ys = refl
has_newline-append (x ∷ xs) ys = ground (arith, has_newline-append xs ys)

-- What stands behind the new bytes in the buffer.
abbrev pub behind : SocketClient → ℕ → List ℕ
behind sc len = drop (sc.line_offset + len) (take (linebuffer_size - 1) sc.line)

take_write :
    (m k : ℕ) (line new : List ℕ)
    → k ≡ length new
    → length new ≤ m
    → m ≤ length line
    → take m (new ++ drop k line) ≡ new ++ drop k (take m line)
take_write m zero line [] e fits long = refl
take_write m (suc k) line [] e fits long = absurd (omega arith)
take_write m zero line (b ∷ new) e fits long = absurd (omega arith)
take_write zero (suc k) line (b ∷ new) e fits long = absurd (omega arith)
take_write (suc m) (suc k) [] (b ∷ new) e fits long = absurd (omega arith)
take_write (suc m) (suc k) (x ∷ line) (b ∷ new) e fits long =
    ap (◌∷◌ b) (take_write m k line new (omega arith) (omega arith) (omega arith))

drop-take_write :
    (n k m : ℕ) (line new : List ℕ)
    → k ≡ n + length new
    → k ≤ m
    → m ≤ length line
    → drop n (take m (take n line ++ (new ++ drop k line))) ≡ new ++ drop k (take m line)
drop-take_write zero k m line new e fits long =
    take_write m k line new (omega arith) (omega arith) long
drop-take_write (suc n) zero m line new e fits long = absurd (omega arith)
drop-take_write (suc n) (suc k) zero line new e fits long = absurd (omega arith)
drop-take_write (suc n) (suc k) (suc m) [] new e fits long = absurd (omega arith)
drop-take_write (suc n) (suc k) (suc m) (x ∷ line) new e fits long =
    drop-take_write n k m line new (omega arith) (omega arith) (omega arith)

-- The line counts as complete where the new bytes have a newline, or what has been left behind them
-- in the buffer has one.
pub is_line_complete-read_into :
    (sc : SocketClient) (new : List ℕ)
    → IsLineBuffer sc
    → length new ≤ linebuffer_size - sc.line_offset - 1
    → is_line_complete (read_into sc new)
      ≡ (has_newline new || has_newline (behind sc (length new)))
unfolding is_line_complete read_into
is_line_complete-read_into sc new h fits =
    let size = h.size in
    let room = h.room in
    ap has_newline (
      drop-take_write sc.line_offset (sc.line_offset + length new) (linebuffer_size - 1) sc.line new
        refl (omega arith) (omega arith))
    ∙ has_newline-append new (behind sc (length new))
