-- ===== src/Handshake/Fragments.antt =====
-- src/core/pmx_net.c: pmx_recv_exact on a stream that is cut into any chunks.
use proxi_might.Prelude.{
  ℕ, zero, suc, ◌-◌, ◌≤◌, ◌≡◌, refl, ap, sym, ◌∙◌, true, List, [], ◌∷◌, ◌++◌, leb, length, take,
  drop, ◌⊎◌, inl, inr, arith, Bool-cases, length-append,
}
use proxi_might.Prelude.Bytes.{Bytes}
use proxi_might.Status.{Status}
use proxi_might.Handshake.Socket.{
  Arrival, chunk, fails, Socket, put_back, joined, recv_loop, recv_exact,
}
use proxi_might.Handshake.Stream.{bytes_of, bytes_of-put_back}

head_or_zero : Bytes → ℕ
head_or_zero [] = 0
head_or_zero (c ∷ s) = c

heads : {a b : ℕ} {s t : Bytes} → a ∷ s ≡ b ∷ t → a ≡ b
unfolding head_or_zero
heads e = ap head_or_zero e

too_short : (r rest : Bytes) (n : ℕ) → [] ≡ r ++ rest → length r ≡ suc n → ⊥
too_short [] rest n e h = omega arith
too_short (c ∷ r) rest n e h = cc

split_left :
    (xs ys r rest : Bytes)
    → xs ++ ys ≡ r ++ rest
    → length r ≤ length xs
    → (take (length r) xs ≡ r) × (drop (length r) xs ++ ys ≡ rest)
split_left xs ys [] rest e h = (refl, e)
split_left [] ys (b ∷ r) rest e h = absurd (omega arith)
split_left (a ∷ xs) ys (b ∷ r) rest e h =
    let (p, q) = split_left xs ys r rest (ap (drop 1) e) (omega arith) in
    (ap (λ t. a ∷ t) p ∙ ap (λ x. x ∷ r) (heads e), q)

split_right :
    (xs ys r rest : Bytes)
    → xs ++ ys ≡ r ++ rest
    → length xs ≤ length r
    → (r ≡ xs ++ drop (length xs) r) × (ys ≡ drop (length xs) r ++ rest)
split_right [] ys r rest e h = (refl, e)
split_right (a ∷ xs) ys [] rest e h = absurd (omega arith)
split_right (a ∷ xs) ys (b ∷ r) rest e h =
    let (p, q) = split_right xs ys r rest (ap (drop 1) e) (omega arith) in
    (ap (λ t. b ∷ t) p ∙ ap (λ x. x ∷ xs ++ drop (length xs) r) (sym (heads e)), q)

-- The bytes wanted all stand in the first chunk.
whole_chunk :
    (evs : List Arrival) (n c : ℕ) (s r rest : Bytes)
    → bytes_of (chunk (c ∷ s) ∷ evs) ≡ r ++ rest
    → length r ≡ suc n
    → leb (suc n) (length (c ∷ s)) ≡ true
    → (evs' : List Arrival) × (recv_loop (chunk (c ∷ s) ∷ evs) (suc n) ≡ (inl r, evs'))
      × (bytes_of evs' ≡ rest)
unfolding recv_loop bytes_of
whole_chunk evs n c s r rest e h k =
    let (p, q) = split_left (c ∷ s) (bytes_of evs) r rest e (ground arith) in
    let back = drop (suc n) (c ∷ s) in
    (
      put_back back evs,
      rw k (ap (λ (t : Bytes). (inl t, put_back back evs)) (ap (λ m. take m (c ∷ s)) (sym h) ∙ p)),
      bytes_of-put_back back evs ∙ ap (λ m. drop m (c ∷ s) ++ bytes_of evs) (sym h) ∙ q,
    )

recv_loop-fragments :
    (evs : List Arrival) (n : ℕ) (r rest : Bytes)
    → bytes_of evs ≡ r ++ rest
    → length r ≡ n
    → (evs' : List Arrival) × (recv_loop evs n ≡ (inl r, evs')) × (bytes_of evs' ≡ rest)
unfolding recv_loop bytes_of
recv_loop-fragments evs zero [] rest e h = (evs, refl, e)
recv_loop-fragments evs zero (c ∷ r) rest e h = absurd (omega arith)
recv_loop-fragments [] (suc n) r rest e h = absurd (too_short r rest n e h)
recv_loop-fragments (fails f ∷ evs) (suc n) r rest e h = absurd (too_short r rest n e h)
recv_loop-fragments (chunk [] ∷ evs) (suc n) r rest e h = absurd (too_short r rest n e h)
recv_loop-fragments (chunk (c ∷ s) ∷ evs) (suc n) r rest e h =
    elim (Bool-cases (leb (suc n) (length (c ∷ s)))) [
      | inl k ↦ whole_chunk evs n c s r rest e h k
      | inr k ↦
          let (p, q) = split_right (c ∷ s) (bytes_of evs) r rest e (ground arith) in
          let left : length (drop (length (c ∷ s)) r) ≡ suc n - length (c ∷ s) =
            omega (arith, ap length p, length-append (c ∷ s) (drop (length (c ∷ s)) r)) in
          let (evs', f, g) =
            recv_loop-fragments evs (suc n - length (c ∷ s)) (drop (length (c ∷ s)) r) rest q
              left in
          (evs', rw k (ap (joined (c ∷ s)) f ∙ ap (λ (t : Bytes). (inl t, evs')) (sym p)), g)
    ]

-- If the bytes that arrive before any failure begin with n given bytes, an exact read of n bytes
-- ends with these bytes, however they are cut into chunks, and leaves the rest of the stream to
-- be read.
pub recv_exact-fragments :
    (n : ℕ) (s : Socket) (r rest : Bytes)
    → bytes_of s.arriving ≡ r ++ rest
    → length r ≡ n
    → (evs : List Arrival) × (recv_exact n s ≡ (inl r, record s { arriving = evs }))
      × (bytes_of evs ≡ rest)
unfolding recv_exact
recv_exact-fragments n s r rest e h =
    let (evs, p, q) = recv_loop-fragments s.arriving n r rest e h in
    (evs, ap (λ (x : (Bytes ⊎ Status) × List Arrival). (x.0, record s { arriving = x.1 })) p, q)
