-- ===== src/Handshake/Granted.antt =====
-- src/core/pmx_proxy.c: what a handshake of any kind that succeeds has written and read.
use proxi_might.Prelude.{
  ℕ, zero, suc, ◌-◌, ◌≤◌, ◌≡◌, refl, true, not, [], ◌∷◌, ◌++◌, leb, if◌then◌else◌, length, inl,
  arith, append-nil, append_assoc, length-append, on_branches,
}
use mathlib.Core.Path.{subst}
use proxi_might.Prelude.Bytes.{Bytes}
use proxi_might.Status.{is_ok, err_proxy_handshake, err_unsupported}
use proxi_might.Proxy.{Proxy, ProxyType, socks5, socks4, socks4a, http, https}
use proxi_might.Handshake.Socks.{socks4_connect, socks4_parse_reply, result_status}
use proxi_might.Handshake.Http.{http_connect, http_parse_reply}
use proxi_might.Handshake.Socket.{Socket, Net}
use proxi_might.Handshake.Run.{
  byte_at, is_socks4a, is_parse, socks4_handshake, http_rounds, http_handshake, by_type,
}
use proxi_might.Handshake.Stream.{
  OnOk, OnOk-go_on, OnOk-weaken, OnOk-inr, Moves, Moves-append, Moves-retype, Moves-ask,
  given-Moves, send_all-Moves, recv_exact-Moves, recv_some-Moves, checked-Moves,
}
use proxi_might.Handshake.Exchange.{IsExchange, ExchangeOk, socks5_handshake_ok}

-- A CONNECT of SOCKS4, and an answer of eight bytes with the code for "granted".
unfoldable pub IsSocks4 : Proxy → Bytes → ℕ → Bytes → Bytes → Type 0
IsSocks4 p host port out got =
    (socks4_connect 512 host port (is_socks4a p.type) (if p.use_auth then p.username else [])
      ≡ inl out)
    × (length got ≡ 8)
    × (byte_at got 1 ≡ 0x5A)

-- A CONNECT of HTTP, and what was read until the status line was there, with a code of success.
unfoldable pub IsHttp : Proxy → Bytes → ℕ → Bytes → Bytes → Type 0
IsHttp p host port out got =
    (http_connect 1024 host port (if p.use_auth then p.username else [])
        (if p.use_auth then p.password else [])
      ≡ inl out)
    × (length got ≤ 1023)
    × (is_ok (http_parse_reply got) ≡ true)

-- What the proxy's type calls a tunnel that was granted; none for HTTPS.
unfoldable pub IsGranted : ProxyType → Proxy → Bytes → ℕ → Bytes → Bytes → Type 0
unfolding IsExchange IsSocks4 IsHttp
IsGranted socks5 p host port out got = IsExchange p host port out got
IsGranted socks4 p host port out got = IsSocks4 p host port out got
IsGranted socks4a p host port out got = IsSocks4 p host port out got
IsGranted http p host port out got = IsHttp p host port out got
IsGranted https p host port out got = ⊥

granted_code : (reply : Bytes) → is_ok (socks4_parse_reply reply) ≡ true → byte_at reply 1 ≡ 0x5A
unfolding socks4_parse_reply result_status
granted_code [] h = cc
granted_code (a ∷ []) h = cc
granted_code (a ∷ b ∷ s) h = ground arith

unfoldable pub GrantedOk : ProxyType → Proxy → Bytes → ℕ → Socket → Unit {0} → Socket → Type 0
unfolding IsGranted Moves
GrantedOk t p host port s u s' =
    (out : Bytes) × (got : Bytes) × IsGranted t p host port out got × Moves s out got s'

Socks4Ok : Proxy → Bytes → ℕ → Socket → Unit {0} → Socket → Type 0
unfolding IsSocks4 Moves
Socks4Ok p host port s u s' =
    (out : Bytes) × (got : Bytes) × IsSocks4 p host port out got × Moves s out got s'

socks4_handshake_ok :
    (p : Proxy) (host : Bytes) (port : ℕ) (s : Socket)
    → OnOk (Socks4Ok p host port s) (socks4_handshake p host port s)
unfolding socks4_handshake Socks4Ok IsSocks4
socks4_handshake_ok p host port s = OnOk-go_on _ _ _ _ (given-Moves _ s) (λ request s1 (e, m1).
    OnOk-go_on _ _ _ _ (send_all-Moves request s1) (λ u s2 m2.
      OnOk-go_on _ _ _ _ (recv_exact-Moves 8 s2) (λ reply s3 (n, m3).
        OnOk-weaken _ _ _ (checked-Moves (socks4_parse_reply reply) s3) (λ u4 s4 (c, m4). (
          request,
          reply,
          (e, n, granted_code reply c),
          Moves-retype s s4 (request ++ []) request (reply ++ []) reply (append-nil request)
              (append-nil reply)
              (Moves-append s s3 s4 request [] reply []
                (Moves-ask s s1 s2 s3 request reply m1 m2 m3) m4),
        )))))

-- What the rounds have read, behind what was read before.
RoundsOk : Bytes → Socket → Unit {0} → Socket → Type 0
unfolding Moves
RoundsOk resp s u s' =
    (got : Bytes) × Moves s [] got s'
    × (length (resp ++ got) ≤ 1023)
    × (is_ok (http_parse_reply (resp ++ got)) ≡ true)

http_rounds_ok :
    (attempts : ℕ) (resp : Bytes) (s : Socket)
    → length resp ≤ 1023
    → OnOk (RoundsOk resp s) (http_rounds attempts resp s)
unfolding http_rounds RoundsOk
http_rounds_ok zero resp s h = OnOk-inr (RoundsOk resp s) err_proxy_handshake s
http_rounds_ok (suc attempts) resp s h =
    OnOk-go_on _ _ _ _ (recv_some-Moves (1023 - length resp) s) (λ got s1 (n, m1).
      let fits : length (resp ++ got) ≤ 1023 = omega (arith, length-append resp got) in
      let P : Net Unit → Type 0 = λ m. OnOk (RoundsOk resp s) (m s1) in
      on_branches P (not (is_parse (http_parse_reply (resp ++ got)))) _ _
        (λ _. OnOk-weaken _ _ _ (checked-Moves (http_parse_reply (resp ++ got)) s1) (λ u s2 (c, m2).
          (
            got,
            Moves-retype s s2 [] [] (got ++ []) got refl (append-nil got)
                (Moves-append s s1 s2 [] [] got [] m1 m2),
            fits,
            c,
          )))
        (λ _.
          on_branches P (leb 1023 (length (resp ++ got))) _ _
            (λ _. OnOk-inr (RoundsOk resp s) err_proxy_handshake s1)
            (λ _.
              OnOk-weaken _ _ _ (http_rounds_ok attempts (resp ++ got) s1 fits)
                (λ u s2 (got2, m2, fits2, c).
                  let e : resp ++ got ++ got2 ≡ resp ++ (got ++ got2) =
                    append_assoc resp got got2 in
                  (
                    got ++ got2,
                    Moves-append s s1 s2 [] [] got got2 m1 m2,
                    subst (λ t. length t ≤ 1023) e fits2,
                    subst (λ t. is_ok (http_parse_reply t) ≡ true) e c,
                  )))))

HttpOk : Proxy → Bytes → ℕ → Socket → Unit {0} → Socket → Type 0
unfolding IsHttp Moves
HttpOk p host port s u s' =
    (out : Bytes) × (got : Bytes) × IsHttp p host port out got × Moves s out got s'

http_handshake_ok :
    (p : Proxy) (host : Bytes) (port : ℕ) (s : Socket)
    → OnOk (HttpOk p host port s) (http_handshake p host port s)
unfolding http_handshake HttpOk IsHttp RoundsOk
http_handshake_ok p host port s = OnOk-go_on _ _ _ _ (given-Moves _ s) (λ request s1 (e, m1).
    OnOk-go_on _ _ _ _ (send_all-Moves request s1) (λ u s2 m2.
      OnOk-weaken _ _ _ (http_rounds_ok 8 [] s2 (omega arith)) (λ u3 s3 (got, m3, n, c).
        (request, got, (e, n, c), Moves-ask s s1 s2 s3 request got m1 m2 m3))))

pub handshake_ok :
    (t : ProxyType) (p : Proxy) (host : Bytes) (port : ℕ) (s : Socket)
    → OnOk (GrantedOk t p host port s) (by_type t p host port s)
unfolding by_type GrantedOk ExchangeOk Socks4Ok HttpOk IsGranted
handshake_ok socks5 p host port s =
    OnOk-weaken _ _ _ (socks5_handshake_ok p host port s) (λ u s1 h. h)
handshake_ok socks4 p host port s =
    OnOk-weaken _ _ _ (socks4_handshake_ok p host port s) (λ u s1 h. h)
handshake_ok socks4a p host port s =
    OnOk-weaken _ _ _ (socks4_handshake_ok p host port s) (λ u s1 h. h)
handshake_ok http p host port s = OnOk-weaken _ _ _ (http_handshake_ok p host port s) (λ u s1 h. h)
handshake_ok https p host port s = OnOk-inr (GrantedOk https p host port s) err_unsupported s
