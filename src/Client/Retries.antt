-- ===== src/Client/Retries.antt =====
-- src/intercom_client.c: `request_task`, which asks again until its packet has come or its retries
-- are used up.
use snapcastc.Base.{
  ◌%◌, ℕ, zero, suc, ◌+◌, ◌-◌, ◌==◌, ◌≤◌, ◌<◌, ◌≡◌, refl, ◌∙◌, ap, true, List, [], ◌∷◌, ◌++◌, some,
  arith, ltb, if◌then◌else◌, length, length-append, length-take, take, drop, get_or, u32_mod,
}
use snapcastc.Packet.{byte, assemble32, get_nonce, get_nonce_from_tlv}
use snapcastc.Intercom.Packets.{count}
use snapcastc.Client.{
  ClientCtx, RequestTask, request_task, renumber, already_requesting, remove_request,
}
use snapcastc.Client.Missing.{remove_request-count}
use snapcastc.Packet.Bytes.{byte-append}

get_or-drop : (n : ℕ) (xs : List ℕ) (i j : ℕ) → j ≡ n + i → get_or (drop n xs) i 0 ≡ get_or xs j 0
get_or-drop zero xs i j h = let same : i ≡ j = omega arith in ap (λ k. get_or xs k 0) same
get_or-drop (suc n) [] i j h = refl
get_or-drop (suc n) (x ∷ xs) i zero h = omega arith
get_or-drop (suc n) (x ∷ xs) i (suc j) h = get_or-drop n xs i j (omega arith)

byte-renumber :
    (packet : List ℕ) (nonce i j : ℕ)
    → 8 ≤ length packet
    → j ≡ 8 + i
    → byte (renumber packet nonce) j ≡ byte packet j
unfolding renumber byte assemble32
byte-renumber packet nonce i j long h =
    let four = length-take 4 packet in
    let rest = drop 8 packet in
    byte-append (take 4 packet) (assemble32 nonce ++ rest) (4 + i) j (omega arith)
    ∙ byte-append (assemble32 nonce) rest i (4 + i) (omega arith)
    ∙ get_or-drop 8 packet i j h

-- Renumbering a request keeps the number that is asked for.
pub renumber-request :
    (packet : List ℕ) (nonce : ℕ)
    → 8 ≤ length packet
    → get_nonce_from_tlv (renumber packet nonce) 8 ≡ get_nonce_from_tlv packet 8
unfolding get_nonce_from_tlv
renumber-request packet nonce long =
    rw
      (
        byte-renumber packet nonce 2 10 long refl,
        byte-renumber packet nonce 3 11 long refl,
        byte-renumber packet nonce 4 12 long refl,
        byte-renumber packet nonce 5 13 long refl,
      )
      refl

-- The task that one run of a task posts.
abbrev pub next_task : ClientCtx → RequestTask → RequestTask
next_task ctx task = record {
  packet = renumber task.packet (get_nonce (some ctx.counter)).0;
  retries_left = task.retries_left - 1;
}

-- The tasks that have been posted run one after the other, each in one round.
unfoldable pub run_posted : ℕ → ClientCtx → ClientCtx
unfolding request_task
run_posted zero ctx = ctx
run_posted (suc rounds) ctx = elim ctx.posted [
  | [] ↦ ctx
  | p ∷ posted ↦ run_posted rounds (request_task (record ctx { posted = posted }) p.1)
]

-- A run with retries left, for a packet that is still missing: the request goes out under a new number,
-- the same request with one retry less is posted for 100 ms later, and nothing else changes.
pub request_task-again :
    (ctx : ClientCtx) (task : RequestTask)
    → 8 ≤ length task.packet
    → 0 < task.retries_left
    → already_requesting ctx.missing_packets (get_nonce_from_tlv task.packet 8) ≡ true
    → request_task ctx task ≡ (record ctx {
      counter = (ctx.counter + 1) % u32_mod;
      sent = ctx.sent ++ (next_task ctx task).packet ∷ [];
      posted = ctx.posted ++ (100, next_task ctx task) ∷ [];
    })
unfolding request_task
request_task-again ctx task long r m =
    let same = renumber-request task.packet (get_nonce (some ctx.counter)).0 long in
    let more : ltb 0 task.retries_left ≡ true = ground arith in rw (more, same, m) refl

request_task-last :
    (ctx : ClientCtx) (task : RequestTask)
    → 8 ≤ length task.packet
    → task.retries_left ≡ 0
    → request_task ctx task ≡ (record ctx {
      counter = (ctx.counter + 1) % u32_mod;
      missing_packets = (remove_request ctx.missing_packets (get_nonce_from_tlv task.packet 8)).0;
    })
unfolding request_task
request_task-last ctx task long r =
    let same = renumber-request task.packet (get_nonce (some ctx.counter)).0 long in
    rw (r, same) refl

next_task-long :
    (ctx : ClientCtx) (task : RequestTask)
    → 8 ≤ length task.packet
    → 8 ≤ length (next_task ctx task).packet
unfolding renumber assemble32
next_task-long ctx task long =
    let nonce = (get_nonce (some ctx.counter)).0 in
    omega (
      arith,
      length-take 4 task.packet,
      length-append (take 4 task.packet) (assemble32 nonce ++ drop 8 task.packet),
    )

next_task-request :
    (ctx : ClientCtx) (task : RequestTask)
    → 8 ≤ length task.packet
    → get_nonce_from_tlv (next_task ctx task).packet 8 ≡ get_nonce_from_tlv task.packet 8
next_task-request ctx task long = renumber-request task.packet (get_nonce (some ctx.counter)).0 long

run_posted-none : (rounds : ℕ) (ctx : ClientCtx) → ctx.posted ≡ [] → run_posted rounds ctx ≡ ctx
unfolding run_posted
run_posted-none zero ctx e = refl
run_posted-none (suc rounds) ctx e = rw e refl

run_posted-one :
    (rounds ms : ℕ) (ctx : ClientCtx) (task : RequestTask)
    → ctx.posted ≡ (ms, task) ∷ []
    → run_posted (suc rounds) ctx
      ≡ run_posted rounds (request_task (record ctx { posted = [] }) task)
unfolding run_posted
run_posted-one rounds ms ctx task e = rw e refl

-- The only posted task has a whole packet header and asks for a packet that is listed as missing and
-- that never comes. When the posted tasks run for more rounds than the task has retries, no task is left, the
-- packet has been asked for as often as the task has retries, and it has been taken off the list
-- once, while all other entries of the list stay.
pub run_posted_correct :
    (rounds retries ms : ℕ) (ctx : ClientCtx) (task : RequestTask)
    → ctx.posted ≡ (ms, task) ∷ []
    → 8 ≤ length task.packet
    → task.retries_left ≡ retries
    → retries < rounds
    → already_requesting ctx.missing_packets (get_nonce_from_tlv task.packet 8) ≡ true
    → let ctx' = run_posted rounds ctx in
      (ctx'.posted ≡ [])
      × (length ctx'.sent ≡ length ctx.sent + retries)
      × ((m : ℕ)
          → count m ctx'.missing_packets
            ≡ count m ctx.missing_packets
              - (if get_nonce_from_tlv task.packet 8 == m then 1 else 0))
run_posted_correct zero retries ms ctx task p long r enough h = absurd (omega (arith, enough))
run_posted_correct (suc rounds) zero ms ctx task p long r enough h =
    let ctx0 : ClientCtx = record ctx { posted = [] } in
    let last = request_task-last ctx0 task long r in
    let done : (request_task ctx0 task).posted ≡ [] = rw last refl in
    rw
      (run_posted-one rounds ms ctx task p
        ∙ run_posted-none rounds (request_task ctx0 task) done
        ∙ last)
      (
        refl,
        omega arith,
        remove_request-count ctx.missing_packets (get_nonce_from_tlv task.packet 8),
      )
run_posted_correct (suc rounds) (suc retries) ms ctx task p long r enough h =
    let ctx0 : ClientCtx = record ctx { posted = [] } in
    let again = request_task-again ctx0 task long (omega arith) h in
    let next = next_task ctx0 task in
    let ctx' = request_task ctx0 task in
    let same = next_task-request ctx0 task long in
    let kept : ctx'.missing_packets ≡ ctx.missing_packets = rw again refl in
    let here : already_requesting ctx'.missing_packets (get_nonce_from_tlv next.packet 8) ≡ true =
      rw (same, kept) h in
    let rest =
      run_posted_correct rounds retries 100 ctx' next (rw again refl)
        (next_task-long ctx0 task long) (omega arith) (omega arith) here in
    let one : length ctx'.sent ≡ length ctx.sent + 1 =
      rw again (length-append ctx.sent (next.packet ∷ [])) in
    rw (run_posted-one rounds ms ctx task p)
      (rest.0, omega (arith, rest.1, one), λ m. rest.2 m ∙ rw (same, kept) refl)
