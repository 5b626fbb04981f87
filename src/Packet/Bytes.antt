-- ===== src/Packet/Bytes.antt =====
-- src/intercom_client.c and intercom_srv.c: reading a packet behind what has been read.
use snapcastc.Base.{
  ℕ, zero, suc, ◌+◌, ◌≡◌, ap, false, List, [], ◌∷◌, ◌++◌, arith, ltb, length, length-append, get_or,
}
use snapcastc.Packet.{byte}

-- A byte behind the first part of a packet.
pub byte-append : (xs ys : List ℕ) (i j : ℕ) → j ≡ length xs + i → byte (xs ++ ys) j ≡ byte ys i
unfolding byte
byte-append [] ys i j h = let same : j ≡ i = omega arith in ap (λ k. get_or ys k 0) same
byte-append (x ∷ xs) ys i zero h = omega arith
byte-append (x ∷ xs) ys i (suc j) h = byte-append xs ys i j (omega arith)

-- At the end of a packet the loops over its segments stop.
pub all_done :
    (done packet : List ℕ) (offset : ℕ)
    → packet ≡ done ++ []
    → offset ≡ length done
    → ltb offset (length packet) ≡ false
all_done done packet offset e o = rw (e, o) (ground (arith, length-append done []))
