-- ===== src/Server/Loop/Fed.antt =====
-- src/server.c, stream.c and inputpipe.c: what each event keeps of a pipe that reaches its clients.
use snapcastc.Base.{
  ℕ, zero, suc, ◌==◌, ◌<◌, Bool, true, false, ◌&&◌, ◌||◌, List, [], ◌∷◌, ◌≡◌, refl, arith,
  Bool-cases, inl, inr, subst, ap, sym, ◌∙◌,
}
use snapcastc.Timespec.{Timespec}
use snapcastc.Inputpipe.{
  InputPipe, PipeState, idle, playing, throttle, is_playing, Reading, failed, bytes, received,
  after_read, finish_read, complete, is_buffer_full, is_chunk_complete, inputpipe_handle,
  inputpipe_resume_read, inputpipe_hold, inputpipe_uninit, set_idle,
}
use snapcastc.Server.{is_idle}
use snapcastc.Server.Loop.{reopen_pipe}

-- A pipe that plays or is throttled has clients. The first is read, the second is not and a task
-- waits; an idle one is not read without clients, and with clients it is read or a task waits.
abbrev pub IsFed : PipeState → Bool → Bool → ℕ → Type 0
IsFed playing watched pending clients = (watched ≡ true) × (0 < clients)
IsFed throttle watched pending clients = (watched ≡ false) × (pending ≡ true) × (0 < clients)
IsFed idle watched pending zero = watched ≡ false
IsFed idle watched pending (suc clients) = watched || pending ≡ true

IsFed-idle : (pending : Bool) (n : ℕ) → 0 < n → IsFed idle true pending n
IsFed-idle pending zero h = absurd (omega (arith, h))
IsFed-idle pending (suc n) h = refl

pub IsFed-some : (st : PipeState) (pending : Bool) (n : ℕ) → IsFed st true pending n → 0 < n
IsFed-some idle pending zero h = cc
IsFed-some idle pending (suc n) h = omega arith
IsFed-some playing pending n h = h.1
IsFed-some throttle pending n h = let no : true ≡ false = h.0 in cc

pub IsFed-other :
    (st : PipeState) (watched pending : Bool) (n m : ℕ)
    → 0 < n
    → 0 < m
    → IsFed st watched pending n
    → IsFed st watched pending m
IsFed-other idle w p zero m hn hm h = absurd (omega (arith, hn))
IsFed-other idle w p (suc n) zero hn hm h = absurd (omega (arith, hm))
IsFed-other idle w p (suc n) (suc m) hn hm h = h
IsFed-other playing w p n m hn hm h = (h.0, hm)
IsFed-other throttle w p n m hn hm h = (h.0, h.1, hm)

pub IsFed-none :
    (watched pending : Bool) (n : ℕ)
    → (n == 0) ≡ true
    → watched ≡ false
    → IsFed idle watched pending n
IsFed-none w p zero e h = h
IsFed-none w p (suc n) e h = let no : suc n ≡ 0 = ground arith in absurd (omega (arith, no))

-- Bytes come, in each state of a pipe that is read.
received-IsFed :
    (ctime : Timespec) (st : PipeState) (ctx : InputPipe) (new : List ℕ) (pending : Bool) (n : ℕ)
    → IsFed ctx.state true pending n
    → ctx.watched ≡ true
    → let ctx' = received ctime st ctx new in
      IsFed ctx'.state true pending n × (ctx'.watched ≡ true)
unfolding received
received-IsFed ctime idle ctx new pending n h w = ((refl, IsFed-some ctx.state pending n h), w)
received-IsFed ctime playing ctx new pending n h w = (h, w)
received-IsFed ctime throttle ctx new pending n h w = (h, w)

after_read-IsFed :
    (ctime : Timespec) (ctx : InputPipe) (reading : Reading) (pending : Bool) (n : ℕ)
    → IsFed ctx.state true pending n
    → ctx.watched ≡ true
    → let ctx' = after_read ctime ctx reading in
      IsFed ctx'.state true pending n × (ctx'.watched ≡ true)
unfolding after_read
after_read-IsFed ctime ctx failed pending n h w = (h, w)
after_read-IsFed ctime ctx (bytes []) pending n h w =
    (IsFed-idle pending n (IsFed-some ctx.state pending n h), w)
after_read-IsFed ctime ctx (bytes (b ∷ new)) pending n h w =
    received-IsFed ctime ctx.state ctx (b ∷ new) pending n h w

finish_read-state :
    (ctime : Timespec) (ctx : InputPipe)
    → ((finish_read ctime ctx).1.state ≡ ctx.state)
      × ((finish_read ctime ctx).1.watched ≡ ctx.watched)
unfolding finish_read complete
finish_read-state ctime ctx = elim (Bool-cases (is_chunk_complete ctx)) [
  | inl e ↦ rw (finish_read, e) (refl, refl)
  | inr e ↦ rw (finish_read, e) (refl, refl)
]

pub handle-IsFed :
    (bufferms : ℕ) (ctime : Timespec) (ctx : InputPipe) (reading : Reading) (pending : Bool) (n : ℕ)
    → IsFed ctx.state ctx.watched pending n
    → ctx.watched ≡ true
    → let ctx' = (inputpipe_handle bufferms ctime ctx reading).1 in
      IsFed ctx'.state true pending n × (ctx'.watched ≡ true)
unfolding inputpipe_handle
handle-IsFed bufferms ctime ctx reading pending n h w =
    let read_on : IsFed ctx.state true pending n = subst (λ b. IsFed ctx.state b pending n) w h in
    let ctx' = after_read ctime ctx reading in
    let a = after_read-IsFed ctime ctx reading pending n read_on w in
    let f = finish_read-state ctime ctx' in
    elim (Bool-cases (is_buffer_full bufferms ctime ctx)) [
      | inl e ↦ rw (inputpipe_handle, e) (read_on, w)
      | inr e ↦
          rw (inputpipe_handle, e) (subst (λ st. IsFed st true pending n) (sym f.0) a.0, f.1 ∙ a.1)
    ]

pub resumed :
    (ctx : InputPipe) (pending : Bool) (n : ℕ)
    → 0 < n
    → is_playing ctx.state ≡ false
    → let ctx' = inputpipe_resume_read n ctx in IsFed ctx'.state ctx'.watched pending n
unfolding inputpipe_resume_read
resumed ctx pending n some_client e =
    let some_one : (n == 0) ≡ false = ground arith in
    rw (inputpipe_resume_read, e, some_one) (refl, some_client)

pub resumes_reading :
    (ctx : InputPipe) (n : ℕ)
    → 0 < n
    → is_playing ctx.state ≡ false
    → ((inputpipe_resume_read n ctx).watched ≡ true)
      × ((inputpipe_resume_read n ctx).state ≡ playing)
unfolding inputpipe_resume_read
resumes_reading ctx n some_client e =
    let some_one : (n == 0) ≡ false = ground arith in
    rw (inputpipe_resume_read, e, some_one) (refl, refl)

left_alone :
    (ctx : InputPipe) (n : ℕ) → is_playing ctx.state ≡ true → inputpipe_resume_read n ctx ≡ ctx
unfolding inputpipe_resume_read
left_alone ctx n e = elim (Bool-cases (n == 0)) [
  | inl z ↦ rw (inputpipe_resume_read, e, z) refl
  | inr z ↦ rw (inputpipe_resume_read, e, z) refl
]

pub resume_read-IsFed :
    (st : PipeState) (ctx : InputPipe) (n : ℕ)
    → ctx.state ≡ st
    → IsFed st ctx.watched true n
    → let ctx' = inputpipe_resume_read n ctx in IsFed ctx'.state ctx'.watched false n
unfolding inputpipe_resume_read
resume_read-IsFed idle ctx zero e h = rw e h
resume_read-IsFed idle ctx (suc n) e h = resumed ctx false (suc n) (omega arith) (ap is_playing e)
resume_read-IsFed playing ctx n e h =
    subst (λ c. IsFed c.state c.watched false n) (sym (left_alone ctx n (ap is_playing e)))
      (subst (λ t. IsFed t ctx.watched false n) (sym e) h)
resume_read-IsFed throttle ctx n e h = resumed ctx false n h.2 (ap is_playing e)

pub hold-watched :
    (st : PipeState) (ctx : InputPipe) (pending : Bool) (n : ℕ)
    → ctx.state ≡ st
    → IsFed st ctx.watched pending n
    → is_idle st && ctx.watched ≡ false
    → ((inputpipe_hold ctx).state ≡ idle) × ((inputpipe_hold ctx).watched ≡ false)
unfolding inputpipe_hold set_idle
hold-watched idle ctx pending n e h left = rw e (refl, left)
hold-watched playing ctx pending n e h left = rw e (refl, refl)
hold-watched throttle ctx pending n e h left = rw e (refl, h.0)

pub reopen-IsFed :
    (ctx : InputPipe) (pending : Bool) (n : ℕ)
    → 0 < n
    → let ctx' = reopen_pipe n ctx in IsFed ctx'.state ctx'.watched pending n
unfolding reopen_pipe inputpipe_uninit inputpipe_hold set_idle
reopen-IsFed ctx pending n some_client = resumed (inputpipe_uninit ctx) pending n some_client refl

pub underrun-IsFed :
    (st : PipeState) (watched pending : Bool) (n : ℕ)
    → IsFed st watched pending n
    → IsFed idle watched pending n
underrun-IsFed idle w p n h = h
underrun-IsFed playing w p zero h = absurd (omega (arith, h.1))
underrun-IsFed playing w p (suc n) h = rw h.0 refl
underrun-IsFed throttle w p zero h = absurd (omega (arith, h.2))
underrun-IsFed throttle w p (suc n) h = rw (h.0, h.1) refl
