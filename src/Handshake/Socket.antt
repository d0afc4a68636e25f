-- ===== src/Handshake/Socket.antt =====
-- src/core/pmx_net.c: a connected socket, with the reads and writes that block. What the network
-- does is in the socket: how many bytes each `send` takes, and what each wait and `recv` gives.
use proxi_might.Prelude.{
  ℕ, zero, suc, ◌-◌, Bool, true, false, List, [], ◌∷◌, ◌++◌, leb, if◌then◌else◌, length, take, drop,
  ◌⊎◌, inl, inr,
}
use proxi_might.Prelude.Bytes.{Bytes}
use proxi_might.Status.{Status, err_net}
use proxi_might.Rule.Patterns.{is_empty}

-- Bytes that arrive together, or a wait that ends with an error, a timeout among them. An empty
-- chunk is the end that the peer sets.
pub data Arrival : Type 0 where
  chunk : Bytes → Arrival
  fails : Status → Arrival

-- `room` is what each later `send` takes, 0 for an error; `sent` is all that was written.
pub record Socket : Type 0 where
  pub sent : Bytes
  pub room : List ℕ
  pub arriving : List Arrival

abbrev pub Net : Type 0 → Type 0
Net A = Socket → (A ⊎ Status) × Socket

module _ {A : Type 0} where
  abbrev pub pure : A → Net A
  pure a s = (inl a, s)

  abbrev pub raise : Status → Net A
  raise e s = (inr e, s)

  -- A result that a pure function gave.
  abbrev pub given : A ⊎ Status → Net A
  given r s = (r, s)

-- The next step, where the one before it did not fail.
abbrev pub go_on : {A B : Type 0} → (A → Net B) → (A ⊎ Status) × Socket → (B ⊎ Status) × Socket
go_on f (inl a, s) = f a s
go_on f (inr e, s) = (inr e, s)

infixl 5 ◌>>=◌ ◌>>◌
abbrev pub ◌>>=◌ : {A B : Type 0} → Net A → (A → Net B) → Net B
◌>>=◌ m f s = go_on f (m s)

abbrev pub ◌>>◌ : {A B : Type 0} → Net A → Net B → Net B
m >> k = m >>= λ _. k

-- The loop of pmx_send_all: what has gone out, whether all did, and the room that is left.
unfoldable pub send_loop : List ℕ → Bytes → Bytes × Bool × List ℕ
send_loop room [] = ([], true, room)
send_loop [] (c ∷ bytes) = ([], false, [])
send_loop (zero ∷ room) (c ∷ bytes) = ([], false, room)
send_loop (suc n ∷ room) (c ∷ bytes) =
    let (out, all, room') = send_loop room (drop n bytes) in (c ∷ take n bytes ++ out, all, room')

-- pmx_send_all
unfoldable pub send_all : Bytes → Net Unit
unfolding send_loop
send_all bytes s =
    let (out, all, room') = send_loop s.room bytes in
    (if all then inl tt else inr err_net, record s { sent = s.sent ++ out; room = room' })

-- Bytes that were not taken stay in front.
abbrev pub put_back : Bytes → List Arrival → List Arrival
put_back [] evs = evs
put_back (c ∷ s) evs = chunk (c ∷ s) ∷ evs

abbrev pub joined : Bytes → (Bytes ⊎ Status) × List Arrival → (Bytes ⊎ Status) × List Arrival
joined c (inl r, evs) = (inl (c ++ r), evs)
joined c (inr e, evs) = (inr e, evs)

-- The loop of pmx_recv_exact, with the bytes that are still wanted.
unfoldable pub recv_loop : List Arrival → ℕ → (Bytes ⊎ Status) × List Arrival
recv_loop evs zero = (inl [], evs)
recv_loop [] (suc n) = (inr err_net, [])
recv_loop (fails e ∷ evs) (suc n) = (inr e, evs)
recv_loop (chunk c ∷ evs) (suc n) =
    let rest = recv_loop evs (suc n - length c) in
    if is_empty c
    then (inr err_net, evs)
    else if leb (suc n) (length c)
    then (inl (take (suc n) c), put_back (drop (suc n) c) evs)
    else joined c rest

-- pmx_recv_exact
unfoldable pub recv_exact : ℕ → Net Bytes
unfolding recv_loop
recv_exact n s = let (r, evs) = recv_loop s.arriving n in (r, record s { arriving = evs })

-- One read of at most `cap` bytes.
unfoldable pub recv_once : List Arrival → ℕ → (Bytes ⊎ Status) × List Arrival
recv_once [] cap = (inr err_net, [])
recv_once (fails e ∷ evs) cap = (inr e, evs)
recv_once (chunk c ∷ evs) cap =
    (if is_empty (take cap c) then inr err_net else inl (take cap c), put_back (drop cap c) evs)

-- pmx_recv_some
unfoldable pub recv_some : ℕ → Net Bytes
unfolding recv_once
recv_some cap s = let (r, evs) = recv_once s.arriving cap in (r, record s { arriving = evs })
