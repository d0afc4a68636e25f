-- ===== src/Handshake/Stream.antt =====
-- src/core/pmx_net.c: a socket's reads and writes as streams of bytes.
use proxi_might.Prelude.{
  ℕ, zero, suc, ◌-◌, ◌≤◌, ◌≡◌, refl, ap, sym, ◌∙◌, true, false, List, [], ◌∷◌, ◌++◌, leb, length,
  take, drop, ◌⊎◌, inl, inr, arith, length-append, append_assoc, append-nil, length-take,
  on_branches, Bool-cases,
}
use mathlib.Core.Path.{subst}
use proxi_might.Prelude.Bytes.{Bytes}
use proxi_might.Status.{Status, is_ok}
use proxi_might.Handshake.Run.{checked}
use proxi_might.Rule.Patterns.{is_empty}
use proxi_might.Handshake.Socket.{
  given, go_on, Arrival, chunk, fails, Socket, Net, send_loop, send_all, put_back, joined,
  recv_loop, recv_exact, recv_once, recv_some,
}

-- The bytes that arrive before the first failure.
unfoldable pub bytes_of : List Arrival → Bytes
bytes_of [] = []
bytes_of (fails e ∷ evs) = []
bytes_of (chunk [] ∷ evs) = []
bytes_of (chunk (c ∷ s) ∷ evs) = (c ∷ s) ++ bytes_of evs

-- What a read of `n` bytes has taken off the stream.
unfoldable pub IsRead : List Arrival → ℕ → (Bytes ⊎ Status) × List Arrival → Type 0
unfolding bytes_of
IsRead evs n (inr e, evs') = Unit
IsRead evs n (inl r, evs') = (bytes_of evs ≡ r ++ bytes_of evs') × (length r ≡ n)

take-drop : {A : Type 0} (n : ℕ) (xs : List A) → xs ≡ take n xs ++ drop n xs
take-drop zero xs = refl
take-drop (suc n) [] = refl
take-drop (suc n) (x ∷ xs) = ap (λ t. x ∷ t) (take-drop n xs)

pub bytes_of-put_back :
    (s : Bytes) (evs : List Arrival) → bytes_of (put_back s evs) ≡ s ++ bytes_of evs
unfolding bytes_of
bytes_of-put_back [] evs = refl
bytes_of-put_back (c ∷ s) evs = refl

bytes_of-chunk :
    (c : Bytes) (evs : List Arrival)
    → is_empty c ≡ false
    → bytes_of (chunk c ∷ evs) ≡ c ++ bytes_of evs
unfolding bytes_of
bytes_of-chunk [] evs h = cc
bytes_of-chunk (a ∷ s) evs h = refl

joined-IsRead :
    (c : Bytes) (evs : List Arrival) (n : ℕ) (p : (Bytes ⊎ Status) × List Arrival)
    → is_empty c ≡ false
    → length c ≤ n
    → IsRead evs (n - length c) p
    → IsRead (chunk c ∷ evs) n (joined c p)
unfolding IsRead
joined-IsRead c evs n (inr e, evs') hc hl h = tt
joined-IsRead c evs n (inl r, evs') hc hl (e, k) = (
  bytes_of-chunk c evs hc ∙ ap (λ t. c ++ t) e ∙ sym (append_assoc c r (bytes_of evs')),
  omega (arith, length-append c r),
)

recv_loop-IsRead : (evs : List Arrival) (n : ℕ) → IsRead evs n (recv_loop evs n)
unfolding recv_loop IsRead
recv_loop-IsRead evs zero = (refl, refl)
recv_loop-IsRead [] (suc n) = tt
recv_loop-IsRead (fails e ∷ evs) (suc n) = tt
recv_loop-IsRead (chunk c ∷ evs) (suc n) =
    on_branches (IsRead (chunk c ∷ evs) (suc n)) (is_empty c) _ _ (λ _. tt)
      (λ hc.
        on_branches (IsRead (chunk c ∷ evs) (suc n)) (leb (suc n) (length c)) _ _
          (λ hl. (
            bytes_of-chunk c evs hc
                ∙ ap (λ t. t ++ bytes_of evs) (take-drop (suc n) c)
                ∙ append_assoc (take (suc n) c) (drop (suc n) c) (bytes_of evs)
                ∙ ap (λ t. take (suc n) c ++ t) (sym (bytes_of-put_back (drop (suc n) c) evs)),
            ground (arith, length-take (suc n) c),
          ))
          (λ hl.
            joined-IsRead c evs (suc n) (recv_loop evs (suc n - length c)) hc (ground arith)
              (recv_loop-IsRead evs (suc n - length c))))

-- A step's result, where it did not fail.
unfoldable pub OnOk : {A : Type 0} → (A → Socket → Type 0) → (A ⊎ Status) × Socket → Type 0
OnOk Q (inl a, s) = Q a s
OnOk Q (inr e, s) = Unit

pub OnOk-go_on :
    {A B : Type 0} (Q : A → Socket → Type 0) (R : B → Socket → Type 0) (f : A → Net B)
    (x : (A ⊎ Status) × Socket)
    → OnOk Q x
    → ((a : A) (s : Socket) → Q a s → OnOk R (f a s))
    → OnOk R (go_on f x)
unfolding OnOk
OnOk-go_on Q R f (inl a, s) h k = k a s h
OnOk-go_on Q R f (inr e, s) h k = tt

pub OnOk-weaken :
    {A : Type 0} (Q R : A → Socket → Type 0) (x : (A ⊎ Status) × Socket)
    → OnOk Q x
    → ((a : A) (s : Socket) → Q a s → R a s)
    → OnOk R x
unfolding OnOk
OnOk-weaken Q R (inl a, s) h k = k a s h
OnOk-weaken Q R (inr e, s) h k = tt

pub OnOk-inl :
    {A : Type 0} (Q : A → Socket → Type 0) (a : A) (s : Socket) → Q a s → OnOk Q (inl a, s)
unfolding OnOk
OnOk-inl Q a s h = h

pub OnOk-inr : {A : Type 0} (Q : A → Socket → Type 0) (e : Status) (s : Socket) → OnOk Q (inr e, s)
unfolding OnOk
OnOk-inr Q e s = tt

-- From `s` to `s'`, the bytes `out` were written and the bytes `got` read.
unfoldable pub Moves : Socket → Bytes → Bytes → Socket → Type 0
unfolding bytes_of
Moves s out got s' = (s'.sent ≡ s.sent ++ out) × (bytes_of s.arriving ≡ got ++ bytes_of s'.arriving)

pub Moves-nil : (s : Socket) → Moves s [] [] s
unfolding Moves
Moves-nil s = (sym (append-nil s.sent), refl)

pub Moves-append :
    (s s' s'' : Socket) (out out' got got' : Bytes)
    → Moves s out got s'
    → Moves s' out' got' s''
    → Moves s (out ++ out') (got ++ got') s''
unfolding Moves
Moves-append s s' s'' out out' got got' (e, f) (e', f') = (
  e' ∙ ap (λ t. t ++ out') e ∙ append_assoc s.sent out out',
  f ∙ ap (λ t. got ++ t) f' ∙ sym (append_assoc got got' (bytes_of s''.arriving)),
)

pub Moves-retype :
    (s s' : Socket) (out out' got got' : Bytes)
    → out ≡ out'
    → got ≡ got'
    → Moves s out got s'
    → Moves s out' got' s'
Moves-retype s s' out out' got got' e f m =
    subst (λ g. Moves s out' g s') f (subst (λ o. Moves s o got s') e m)

-- A request that was made ready, written, and answered.
pub Moves-ask :
    (s s1 s2 s3 : Socket) (out got : Bytes)
    → Moves s [] [] s1
    → Moves s1 out [] s2
    → Moves s2 [] got s3
    → Moves s out got s3
Moves-ask s s1 s2 s3 out got m1 m2 m3 =
    Moves-retype s s3 (out ++ []) out got got (append-nil out) refl
      (Moves-append s s1 s3 [] (out ++ []) [] got m1 (Moves-append s1 s2 s3 out [] [] got m2 m3))

pub given-Moves :
    {A : Type 0} (r : A ⊎ Status) (s : Socket)
    → OnOk (λ a s'. (r ≡ inl a) × Moves s [] [] s') (given r s)
unfolding OnOk
given-Moves (inl a) s = (refl, Moves-nil s)
given-Moves (inr e) s = tt

send_loop-all :
    (room : List ℕ) (bytes : Bytes)
    → (send_loop room bytes).1 ≡ true
    → (send_loop room bytes).0 ≡ bytes
unfolding send_loop
send_loop-all room [] h = refl
send_loop-all [] (c ∷ bytes) h = cc
send_loop-all (zero ∷ room) (c ∷ bytes) h = cc
send_loop-all (suc n ∷ room) (c ∷ bytes) h =
    ap (λ t. c ∷ take n bytes ++ t) (send_loop-all room (drop n bytes) h)
    ∙ ap (λ t. c ∷ t) (sym (take-drop n bytes))

pub send_all-Moves :
    (bytes : Bytes) (s : Socket) → OnOk (λ (u : Unit) s'. Moves s bytes [] s') (send_all bytes s)
unfolding send_all OnOk Moves
send_all-Moves bytes s = elim (Bool-cases (send_loop s.room bytes).1) [
  | inl e ↦ rw (e, send_loop-all s.room bytes e) (refl, refl)
  | inr e ↦ rw e tt
]

IsRead-Moves :
    (n : ℕ) (s : Socket) (p : (Bytes ⊎ Status) × List Arrival)
    → IsRead s.arriving n p
    → OnOk (λ r s'. (length r ≡ n) × Moves s [] r s') (p.0, record s { arriving = p.1 })
unfolding OnOk Moves IsRead
IsRead-Moves n s (inr e, evs) h = tt
IsRead-Moves n s (inl r, evs) (e, k) = (k, (sym (append-nil s.sent), e))

pub recv_exact-Moves :
    (n : ℕ) (s : Socket) → OnOk (λ r s'. (length r ≡ n) × Moves s [] r s') (recv_exact n s)
unfolding recv_exact
recv_exact-Moves n s = IsRead-Moves n s (recv_loop s.arriving n) (recv_loop-IsRead s.arriving n)

is_empty-take : (n : ℕ) (s : Bytes) → is_empty (take n s) ≡ false → is_empty s ≡ false
is_empty-take zero s h = cc
is_empty-take (suc n) [] h = cc
is_empty-take (suc n) (c ∷ s) h = refl

recv_once-Moves :
    (cap : ℕ) (s : Socket) (evs : List Arrival)
    → bytes_of s.arriving ≡ bytes_of evs
    → OnOk
        (λ r s'. (length r ≤ cap) × Moves s [] r s')
        ((recv_once evs cap).0, record s { arriving = (recv_once evs cap).1 })
unfolding recv_once OnOk Moves bytes_of
recv_once-Moves cap s [] h = tt
recv_once-Moves cap s (fails e ∷ evs) h = tt
recv_once-Moves cap s (chunk c ∷ evs) h = elim (Bool-cases (is_empty (take cap c))) [
  | inl e ↦ rw e tt
  | inr e ↦ rw e (
    omega (arith, length-take cap c),
    (
      sym (append-nil s.sent),
      h
          ∙ bytes_of-chunk c evs (is_empty-take cap c e)
          ∙ ap (λ t. t ++ bytes_of evs) (take-drop cap c)
          ∙ append_assoc (take cap c) (drop cap c) (bytes_of evs)
          ∙ ap (λ t. take cap c ++ t) (sym (bytes_of-put_back (drop cap c) evs)),
    ),
  )
]

pub recv_some-Moves :
    (cap : ℕ) (s : Socket) → OnOk (λ r s'. (length r ≤ cap) × Moves s [] r s') (recv_some cap s)
unfolding recv_some
recv_some-Moves cap s = recv_once-Moves cap s s.arriving refl

pub checked-Moves :
    (st : Status) (s : Socket)
    → OnOk (λ (u : Unit) s'. (is_ok st ≡ true) × Moves s [] [] s') (checked st s)
unfolding OnOk
checked-Moves st s = elim (Bool-cases (is_ok st)) [
  | inl e ↦ rw e (refl, Moves-nil s)
  | inr e ↦ rw e tt
]
