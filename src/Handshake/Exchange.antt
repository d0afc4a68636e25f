-- ===== src/Handshake/Exchange.antt =====
-- src/core/pmx_proxy.c: what is written and read by a SOCKS5 handshake that succeeds.
use proxi_might.Prelude.{
  ℕ, ◌+◌, ◌≡◌, refl, ap, sym, ◌∙◌, true, [], ◌∷◌, ◌++◌, ◌==◌, length, ◌⊎◌, inl, inr, arith,
  append-nil, on_branches,
}
use mathlib.Core.Path.{subst}
use proxi_might.Prelude.Bytes.{Bytes}
use proxi_might.Status.{is_ok, err_proxy_auth, err_proxy_handshake}
use proxi_might.Proxy.{Proxy}
use proxi_might.Handshake.Socks.{
  socks5_greeting, socks5_userpass, socks5_connect, socks5_parse_method, socks5_parse_reply,
  reply_status,
}
use proxi_might.Handshake.Socket.{Socket, Net}
use proxi_might.Handshake.Run.{
  byte_at, send_userpass, by_method, address_length, socks5_open, socks5_handshake,
}
use proxi_might.Handshake.Stream.{
  OnOk-weaken, OnOk-inl, OnOk-inr, Moves-retype, Moves-ask, OnOk, OnOk-go_on, Moves, Moves-nil,
  Moves-append, given-Moves, send_all-Moves, recv_exact-Moves, checked-Moves,
}

-- The bound address and the port behind it, of the given kind.
unfoldable pub IsBound : ℕ → Bytes → Type 0
IsBound kind s =
    ((kind ≡ 1) × (length s ≡ 6))
    ⊎ ((kind ≡ 4) × (length s ≡ 18))
    ⊎ ((kind ≡ 3) × (l : ℕ) × (t : Bytes) × (s ≡ l ∷ t) × (length t ≡ l + 2))

-- The login that the method asks for: what is written, and the server's answer.
unfoldable pub IsLogin : Proxy → ℕ → Bytes → Bytes → Type 0
IsLogin p method out got =
    ((method ≡ 0) × (out ≡ []) × (got ≡ []))
    ⊎ ((method ≡ 2)
        × (socks5_userpass 512 p.username p.password ≡ inl out)
        × (v : ℕ) × (got ≡ v ∷ 0 ∷ []))

-- The request, and a reply that grants it.
unfoldable pub IsOpening : Bytes → ℕ → Bytes → Bytes → Type 0
unfolding IsBound
IsOpening host port out got =
    (socks5_connect 512 host port ≡ inl out)
    × (v : ℕ) × (rsv : ℕ) × (kind : ℕ) × (bound : Bytes) × (got ≡ v ∷ 0 ∷ rsv ∷ kind ∷ bound)
    × IsBound kind bound

-- A whole exchange.
unfoldable pub IsExchange : Proxy → Bytes → ℕ → Bytes → Bytes → Type 0
unfolding IsLogin IsOpening
IsExchange p host port out got =
    (greeting : Bytes) × (method : ℕ) × (out1 : Bytes) × (got1 : Bytes) × (out2 : Bytes)
    × (got2 : Bytes) × (socks5_greeting 512 p.use_auth ≡ inl greeting)
    × (out ≡ greeting ++ (out1 ++ out2))
    × (got ≡ 5 ∷ method ∷ (got1 ++ got2))
    × IsLogin p method out1 got1
    × IsOpening host port out2 got2

two_bytes : (s : Bytes) → length s ≡ 2 → s ≡ byte_at s 0 ∷ byte_at s 1 ∷ []
two_bytes (a ∷ b ∷ []) h = refl
two_bytes [] h = absurd (omega arith)
two_bytes (a ∷ []) h = absurd (omega arith)
two_bytes (a ∷ b ∷ c ∷ s) h = absurd (omega arith)

one_byte : (s : Bytes) → length s ≡ 1 → s ≡ byte_at s 0 ∷ []
one_byte (a ∷ []) h = refl
one_byte [] h = absurd (omega arith)
one_byte (a ∷ b ∷ s) h = absurd (omega arith)

four_bytes :
    (s : Bytes) → length s ≡ 4 → s ≡ byte_at s 0 ∷ byte_at s 1 ∷ byte_at s 2 ∷ byte_at s 3 ∷ []
four_bytes (a ∷ b ∷ c ∷ d ∷ []) h = refl
four_bytes [] h = absurd (omega arith)
four_bytes (a ∷ []) h = absurd (omega arith)
four_bytes (a ∷ b ∷ []) h = absurd (omega arith)
four_bytes (a ∷ b ∷ c ∷ []) h = absurd (omega arith)
four_bytes (a ∷ b ∷ c ∷ d ∷ e ∷ s) h = absurd (omega arith)

method_read :
    (reply : Bytes)
    → length reply ≡ 2
    → is_ok (socks5_parse_method reply 0).1 ≡ true
    → reply ≡ 5 ∷ (socks5_parse_method reply 0).0 ∷ []
unfolding socks5_parse_method
method_read [] h k = absurd (omega arith)
method_read (a ∷ []) h k = absurd (omega arith)
method_read (a ∷ m ∷ []) h k = ground arith
method_read (a ∷ m ∷ c ∷ s) h k = absurd (omega arith)

granted : (rep : ℕ) → is_ok (reply_status rep) ≡ true → rep ≡ 0
unfolding reply_status
granted rep h = ground arith

reply_read :
    (head : Bytes)
    → length head ≡ 4
    → is_ok (socks5_parse_reply head) ≡ true
    → head ≡ byte_at head 0 ∷ 0 ∷ byte_at head 2 ∷ byte_at head 3 ∷ []
unfolding socks5_parse_reply reply_status
reply_read head h k =
    let e = four_bytes head h in
    e
    ∙ ap (λ b. byte_at head 0 ∷ b ∷ byte_at head 2 ∷ byte_at head 3 ∷ [])
        (granted (byte_at head 1) (ap (λ t. is_ok (socks5_parse_reply t)) (sym e) ∙ k))

LoginOk : Proxy → ℕ → Socket → Unit {0} → Socket → Type 0
unfolding IsLogin Moves
LoginOk p method s u s' =
    (out : Bytes) × (got : Bytes) × IsLogin p method out got × Moves s out got s'

login_ok : (p : Proxy) (s : Socket) → OnOk (LoginOk p 2 s) (send_userpass p s)
unfolding send_userpass IsLogin LoginOk
login_ok p s =
    OnOk-go_on _ _ _ _ (given-Moves (socks5_userpass 512 p.username p.password) s)
      (λ auth s1 (e, m1). OnOk-go_on _ _ _ _ (send_all-Moves auth s1) (λ u s2 m2.
        OnOk-go_on _ _ _ _ (recv_exact-Moves 2 s2) (λ ar s3 (n, m3).
          on_branches (λ (m : Net Unit). OnOk (LoginOk p 2 s) (m s3)) (byte_at ar 1 == 0) _ _
            (λ h. OnOk-inl (LoginOk p 2 s) tt s3 (
              auth,
              ar,
              inr (
                refl,
                e,
                byte_at ar 0,
                two_bytes ar n ∙ ap (λ b. byte_at ar 0 ∷ b ∷ []) (ground arith),
              ),
              Moves-ask s s1 s2 s3 auth ar m1 m2 m3,
            ))
            (λ h. OnOk-inr (LoginOk p 2 s) err_proxy_auth s3))))

by_method_ok :
    (p : Proxy) (method : ℕ) (s : Socket) → OnOk (LoginOk p method s) (by_method p method s)
unfolding IsLogin LoginOk
by_method_ok p method s =
    on_branches (λ (m : Net Unit). OnOk (LoginOk p method s) (m s)) (method == 2) _ _
      (λ h.
        let e : 2 ≡ method = ground arith in
        subst (λ k. OnOk (LoginOk p k s) (send_userpass p s)) e (login_ok p s))
      (λ h.
        on_branches (λ (m : Net Unit). OnOk (LoginOk p method s) (m s)) (method == 0) _ _
          (λ k.
            OnOk-inl (LoginOk p method s) tt s
              ([], [], inl (ground arith, refl, refl), Moves-nil s))
          (λ k. OnOk-inr (LoginOk p method s) err_proxy_auth s))

-- How many bytes of the bound address and port are left, once its length was read.
LengthOk : ℕ → Socket → ℕ → Socket → Type 0
unfolding IsBound Moves
LengthOk kind s n s' =
    (got : Bytes) × Moves s [] got s' × ((t : Bytes) → length t ≡ n + 2 → IsBound kind (got ++ t))

address_length_ok : (kind : ℕ) (s : Socket) → OnOk (LengthOk kind s) (address_length kind s)
unfolding LengthOk IsBound
address_length_ok kind s =
    let P : Net ℕ → Type 0 = λ m. OnOk (LengthOk kind s) (m s) in
    on_branches P (kind == 1) _ _
      (λ h. OnOk-inl (LengthOk kind s) 4 s ([], Moves-nil s, λ t e. inl (ground arith, e)))
      (λ _.
        on_branches P (kind == 4) _ _
          (λ h.
            OnOk-inl (LengthOk kind s) 16 s ([], Moves-nil s, λ t e. inr (inl (ground arith, e))))
          (λ _.
            on_branches P (kind == 3) _ _
              (λ h. OnOk-go_on _ _ _ _ (recv_exact-Moves 1 s) (λ l s1 (n, m).
                OnOk-inl (LengthOk kind s) (byte_at l 0) s1 (
                  l,
                  m,
                  λ t e.
                      inr (inr (ground arith, byte_at l 0, t, ap (λ x. x ++ t) (one_byte l n), e)),
                )))
              (λ _. OnOk-inr (LengthOk kind s) err_proxy_handshake s)))

OpenOk : Bytes → ℕ → Socket → Unit {0} → Socket → Type 0
unfolding IsOpening Moves
OpenOk host port s u s' =
    (out : Bytes) × (got : Bytes) × IsOpening host port out got × Moves s out got s'

socks5_open_ok :
    (host : Bytes) (port : ℕ) (s : Socket) → OnOk (OpenOk host port s) (socks5_open host port s)
unfolding socks5_open OpenOk IsOpening LengthOk
socks5_open_ok host port s =
    OnOk-go_on _ _ _ _ (given-Moves (socks5_connect 512 host port) s) (λ request s1 (e, m1).
      OnOk-go_on _ _ _ _ (send_all-Moves request s1) (λ u s2 m2.
        OnOk-go_on _ _ _ _ (recv_exact-Moves 4 s2) (λ head s3 (n, m3).
          OnOk-go_on _ _ _ _ (checked-Moves (socks5_parse_reply head) s3) (λ u4 s4 (c, m4).
            OnOk-go_on _ _ _ _ (address_length_ok (byte_at head 3) s4) (λ len s5 (got, m5, bound).
              OnOk-go_on _ _ _ _ (recv_exact-Moves (len + 2) s5) (λ t s6 (k, m6).
                OnOk-inl (OpenOk host port s) tt s6 (
                  request,
                  head ++ (got ++ t),
                  (
                    e,
                    byte_at head 0,
                    byte_at head 2,
                    byte_at head 3,
                    got ++ t,
                    ap (λ x. x ++ (got ++ t)) (reply_read head n c),
                    bound t k,
                  ),
                  Moves-retype s s6 (request ++ []) request (head ++ (got ++ t))
                      (head ++ (got ++ t)) (append-nil request) refl
                      (Moves-append s s3 s6 request [] head (got ++ t)
                        (Moves-ask s s1 s2 s3 request head m1 m2 m3)
                        (Moves-append s3 s4 s6 [] [] [] (got ++ t) m4
                          (Moves-append s4 s5 s6 [] [] got t m5 m6))),
                )))))))

unfoldable pub ExchangeOk : Proxy → Bytes → ℕ → Socket → Unit {0} → Socket → Type 0
unfolding IsExchange Moves
ExchangeOk p host port s u s' =
    (out : Bytes) × (got : Bytes) × IsExchange p host port out got × Moves s out got s'

pub socks5_handshake_ok :
    (p : Proxy) (host : Bytes) (port : ℕ) (s : Socket)
    → OnOk (ExchangeOk p host port s) (socks5_handshake p host port s)
unfolding socks5_handshake ExchangeOk IsExchange LoginOk OpenOk
socks5_handshake_ok p host port s =
    OnOk-go_on _ _ _ _ (given-Moves (socks5_greeting 512 p.use_auth) s) (λ greeting s1 (e, m1).
      OnOk-go_on _ _ _ _ (send_all-Moves greeting s1) (λ u s2 m2.
        OnOk-go_on _ _ _ _ (recv_exact-Moves 2 s2) (λ reply s3 (n, m3).
          OnOk-go_on _ _ _ _ (checked-Moves (socks5_parse_method reply 0).1 s3) (λ u4 s4 (c, m4).
            OnOk-go_on _ _ _ _ (by_method_ok p (socks5_parse_method reply 0).0 s4)
              (λ u5 s5 (out1, got1, login, m5).
                OnOk-weaken _ _ _ (socks5_open_ok host port s5) (λ u6 s6 (out2, got2, opening, m6).
                  (
                    greeting ++ (out1 ++ out2),
                    reply ++ (got1 ++ got2),
                    (
                      greeting,
                      (socks5_parse_method reply 0).0,
                      out1,
                      got1,
                      out2,
                      got2,
                      e,
                      refl,
                      ap (λ x. x ++ (got1 ++ got2)) (method_read reply n c),
                      login,
                      opening,
                    ),
                    Moves-append s s3 s6 greeting (out1 ++ out2) reply (got1 ++ got2)
                        (Moves-ask s s1 s2 s3 greeting reply m1 m2 m3)
                        (Moves-append s3 s4 s6 [] (out1 ++ out2) [] (got1 ++ got2) m4
                          (Moves-append s4 s5 s6 out1 out2 got1 got2 m5 m6)),
                  )))))))
