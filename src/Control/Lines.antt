-- ===== src/Control/Lines.antt =====
-- src/socket.c: `socket_handle_client` over several reads from a connection that has just been accepted.
use snapcastc.Control.Socket.{
  is_line_complete, terminate, linebuffer_size, SocketClient, read_into, has_newline,
}
use snapcastc.Control.Pieces.{is_line_complete-read_into}
use snapcastc.Base.{
  Bool-cases, ◌-◌, ◌≤◌, inl, inr, ◌==◌, ℕ, zero, suc, ◌+◌, ◌<◌, ◌≡◌, refl, sym, ap, ◌∙◌, false,
  List, [], ◌∷◌, ◌++◌, arith, length, take, drop, set, replicate, take-append, length-append,
  length-replicate,
}
use mathlib.Core.List.{append_assoc}
use snapcastc.Control.LineBuffer.{IsLineBuffer}
use snapcastc.Text.{c_string}

abbrev pub zeros : ℕ → List ℕ
zeros n = replicate n 0

-- A connection whose line has not been ended yet, and has never been.
abbrev pub holding : ℕ → List ℕ → SocketClient
holding fd text = record {
  fd = fd;
  line = text ++ zeros (linebuffer_size - length text);
  line_offset = length text;
}

drop-behind :
    {A : Type 0} (xs ys : List A) (k m : ℕ) → k ≡ length xs + m → drop k (xs ++ ys) ≡ drop m ys
drop-behind [] ys k m e = let same : k ≡ m = omega arith in ap (λ k. drop k ys) same
drop-behind (x ∷ xs) ys zero m e = absurd (omega arith)
drop-behind (x ∷ xs) ys (suc k) m e = drop-behind xs ys k m (omega arith)

drop-replicate : (m n k : ℕ) (a : ℕ) → n ≡ k - m → drop m (replicate k a) ≡ replicate n a
drop-replicate zero n k a e = let same : k ≡ n = omega arith in ap (λ n. replicate n a) same
drop-replicate (suc m) n zero a e = let same : 0 ≡ n = omega arith in ap (λ n. replicate n a) same
drop-replicate (suc m) n (suc k) a e = drop-replicate m n k a (omega arith)

has_newline-zeros : (k m n : ℕ) → has_newline (drop k (take m (zeros n))) ≡ false
unfolding has_newline
has_newline-zeros zero zero n = refl
has_newline-zeros zero (suc m) zero = refl
has_newline-zeros zero (suc m) (suc n) = has_newline-zeros zero m n
has_newline-zeros (suc k) zero n = refl
has_newline-zeros (suc k) (suc m) zero = refl
has_newline-zeros (suc k) (suc m) (suc n) = has_newline-zeros k m n

has_newline-behind :
    (text : List ℕ) (k m n : ℕ)
    → length text ≤ k
    → has_newline (drop k (take m (text ++ zeros n))) ≡ false
unfolding has_newline
has_newline-behind [] k m n h = has_newline-zeros k m n
has_newline-behind (b ∷ text) zero m n h = absurd (omega arith)
has_newline-behind (b ∷ text) (suc k) zero n h = refl
has_newline-behind (b ∷ text) (suc k) (suc m) n h = has_newline-behind text k m n (omega arith)

abbrev pub NoZero : List ℕ → Type 0
NoZero [] = Unit
NoZero (b ∷ bs) = ((b == 0) ≡ false) × NoZero bs

pub c_string-padded :
    (text : List ℕ) (n : ℕ) → NoZero text → 0 < n → c_string (text ++ zeros n) ≡ text
unfolding c_string
c_string-padded [] zero h long = absurd (omega arith)
c_string-padded [] (suc n) h long = refl
c_string-padded (b ∷ text) n h long =
    rw (c_string, h.0) (ap (◌∷◌ b) (c_string-padded text n h.1 long))

set-padded :
    (text : List ℕ) (k n : ℕ) → k ≡ length text → set (text ++ zeros n) k 0 ≡ text ++ zeros n
set-padded [] zero zero e = refl
set-padded [] zero (suc n) e = refl
set-padded [] (suc k) n e = absurd (omega arith)
set-padded (b ∷ text) zero n e = absurd (omega arith)
set-padded (b ∷ text) (suc k) n e = ap (◌∷◌ b) (set-padded text k n (omega arith))

holding-IsLineBuffer :
    (fd : ℕ) (text : List ℕ) → length text < linebuffer_size → IsLineBuffer (holding fd text)
holding-IsLineBuffer fd text h = record {
  size = omega (
    arith,
    length-append text (zeros (linebuffer_size - length text)),
    length-replicate {A = ℕ} (linebuffer_size - length text) 0,
  );
  room = h;
}

pub read_into-holding :
    (fd : ℕ) (text new : List ℕ)
    → (read_into (holding fd text) new).line ≡ (holding fd (text ++ new)).line
unfolding read_into
read_into-holding fd text new =
    let rest : List ℕ = zeros (linebuffer_size - length text) in
    let n = linebuffer_size - length (text ++ new) in
    rw (take-append text rest (length text) refl) (
      ap (λ r. text ++ (new ++ r))
        (drop-behind text rest (length text + length new) (length new) refl
          ∙ drop-replicate (length new) n (linebuffer_size - length text) 0
              (omega (arith, length-append text new)))
      ∙ sym (append_assoc text new (zeros n)))

pub is_line_complete-holding :
    (fd : ℕ) (text new : List ℕ)
    → length text + length new < linebuffer_size
    → is_line_complete (read_into (holding fd text) new) ≡ has_newline new
is_line_complete-holding fd text new fits =
    let clean =
      has_newline-behind text (length text + length new) (linebuffer_size - 1)
        (linebuffer_size - length text) (omega arith) in
    is_line_complete-read_into (holding fd text) new (holding-IsLineBuffer fd text (omega arith))
      (omega arith)
    ∙ rw clean (elim (Bool-cases (has_newline new)) [ inl e ↦ rw e refl | inr e ↦ rw e refl ])

pub terminate-holding :
    (fd : ℕ) (text new : List ℕ)
    → (terminate (read_into (holding fd text) new) (length new)).line
      ≡ (holding fd (text ++ new)).line
unfolding terminate read_into
terminate-holding fd text new =
    ap (λ line. set line (length text + length new) 0) (read_into-holding fd text new)
    ∙ set-padded (text ++ new) (length text + length new) (linebuffer_size - length (text ++ new))
        (omega (arith, length-append text new))
