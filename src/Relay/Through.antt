-- ===== src/Relay/Through.antt =====
-- src/core/pmx_relay.c: how relay_conn_worker opens the way through a chain of proxies.
use proxi_might.Prelude.{ℕ, ◌≡◌, refl, List, [], ◌∷◌, ◌++◌, ◌⊎◌, inl, inr}
use mathlib.Core.Path.{subst}
use proxi_might.Prelude.Bytes.{Bytes}
use proxi_might.Status.{Status}
use proxi_might.Proxy.{Proxy}
use proxi_might.Handshake.Socket.{Socket, Net, pure, ◌>>◌}
use proxi_might.Handshake.Run.{handshake}
use proxi_might.Handshake.Stream.{
  OnOk, OnOk-go_on, OnOk-weaken, OnOk-inl, Moves, Moves-nil, Moves-append,
}
use proxi_might.Handshake.Granted.{IsGranted, GrantedOk, handshake_ok}

-- The loop over the hops: each is asked for the next one, the last for the destination.
unfoldable pub through : List Proxy → Bytes → ℕ → Net Unit
unfolding handshake
through [] dst_host dst_port = pure tt
through (p ∷ []) dst_host dst_port = handshake p dst_host dst_port
through (p ∷ q ∷ ps) dst_host dst_port =
    handshake p q.host q.port >> through (q ∷ ps) dst_host dst_port

-- pmx_tcp_connect to the first hop gave `up`; then the loop.
unfoldable pub establish :
    Socket ⊎ Status → List Proxy → Bytes → ℕ → (Unit {0} ⊎ Status) × (Socket ⊎ Status)
unfolding through
establish (inr e) chain dst_host dst_port = (inr e, inr e)
establish (inl up) chain dst_host dst_port =
    let (r, up') = through chain dst_host dst_port up in (r, inl up')

-- Each hop granted the way to the next, in the tunnel of the one before it, and the last the way to
-- the destination.
unfoldable pub IsChained : List Proxy → Bytes → ℕ → Bytes → Bytes → Type 0
unfolding IsGranted
IsChained [] dst_host dst_port out got = (out ≡ []) × (got ≡ [])
IsChained (p ∷ []) dst_host dst_port out got = IsGranted p.type p dst_host dst_port out got
IsChained (p ∷ q ∷ ps) dst_host dst_port out got =
    (out1 : Bytes) × (got1 : Bytes) × (out2 : Bytes) × (got2 : Bytes) × (out ≡ out1 ++ out2)
    × (got ≡ got1 ++ got2)
    × IsGranted p.type p q.host q.port out1 got1
    × IsChained (q ∷ ps) dst_host dst_port out2 got2

ChainOk : List Proxy → Bytes → ℕ → Socket → Unit {0} → Socket → Type 0
unfolding IsChained Moves
ChainOk chain dst_host dst_port s u s' =
    (out : Bytes) × (got : Bytes) × IsChained chain dst_host dst_port out got × Moves s out got s'

hop_ok :
    (p : Proxy) (host : Bytes) (port : ℕ) (s : Socket)
    → OnOk (GrantedOk p.type p host port s) (handshake p host port s)
unfolding handshake
hop_ok p host port s = handshake_ok p.type p host port s

through_ok :
    (chain : List Proxy) (dst_host : Bytes) (dst_port : ℕ) (s : Socket)
    → OnOk (ChainOk chain dst_host dst_port s) (through chain dst_host dst_port s)
unfolding through ChainOk IsChained GrantedOk
through_ok [] dst_host dst_port s =
    OnOk-inl (ChainOk [] dst_host dst_port s) tt s ([], [], (refl, refl), Moves-nil s)
through_ok (p ∷ []) dst_host dst_port s =
    OnOk-weaken _ _ _ (hop_ok p dst_host dst_port s) (λ u s1 h. h)
through_ok (p ∷ q ∷ ps) dst_host dst_port s =
    OnOk-go_on _ _ _ _ (hop_ok p q.host q.port s) (λ u s1 (out1, got1, g1, m1).
      OnOk-weaken _ _ _ (through_ok (q ∷ ps) dst_host dst_port s1) (λ u2 s2 (out2, got2, g2, m2). (
        out1 ++ out2,
        got1 ++ got2,
        (out1, got1, out2, got2, refl, refl, g1, g2),
        Moves-append s s1 s2 out1 out2 got1 got2 m1 m2,
      )))

-- Where the loop over a chain's hops succeeds, it has written and read one handshake for each
-- hop, in the order of the chain and each within the tunnel of the one before it, that asks a hop
-- for the next one and the last hop for the destination, and in which the server grants it: for
-- SOCKS5 the greeting, the login that the chosen method asks for and a CONNECT with reply code 0
-- and its whole bound address, for SOCKS4 a CONNECT with code 0x5A, for HTTP a CONNECT and at
-- most 1023 bytes that carry a status of success; no hop is an HTTPS proxy, and no byte behind
-- the last reply is taken except by a hop of HTTP.
pub through-IsChained :
    (chain : List Proxy) (dst_host : Bytes) (dst_port : ℕ) (s s' : Socket)
    → through chain dst_host dst_port s ≡ (inl tt, s')
    → (out : Bytes) × (got : Bytes) × IsChained chain dst_host dst_port out got × Moves s out got s'
unfolding OnOk ChainOk
through-IsChained chain dst_host dst_port s s' h =
    subst (OnOk (ChainOk chain dst_host dst_port s)) h (through_ok chain dst_host dst_port s)
