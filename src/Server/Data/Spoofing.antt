-- ===== src/Server/Data/Spoofing.antt =====
-- handleData of internal/server/server.go: what a data packet may cause, and that a copy of it causes
-- nothing.
use mpfpv.Prelude.{
  ℕ, ◌≡◌, ◌≢◌, ◌≤◌, ◌^◌, ◌/◌, refl, sym, ◌∙◌, arith, List, [], ◌∷◌, Bool, true, false, some, length,
  get_or, Bool-cases, Option-cases, inl, inr, nat_eq, ◌==◌,
}
use mpfpv.Prelude.Map.{lookup}
use mpfpv.Prelude.Outcome.{returns}
use mpfpv.Prelude.Slices.{index}
use mpfpv.Protocol.Packet.{Header}
use mpfpv.Protocol.Dedup.{is_duplicate}
use mpfpv.Server.State.{Addr, Server, ClientSession, Effect}
use mpfpv.Server.Data.{handle_data, forward_data, inner_src, is_bad_inner}

-- The packet may go on: its client has a session, it is IPv4 with a whole header, and its source is
-- the address of the session.
pub record IsAdmitted (s : Server) (hdr : Header) (payload : List ℕ) : Type 0 where
  pub session : ClientSession
  pub known : lookup hdr.client_id s.sessions ≡ some session
  pub fresh : (is_duplicate s.dedup hdr.client_id hdr.seq).0 ≡ false
  pub whole : 20 ≤ length payload
  pub version : get_or payload 0 0 / 2 ^ 4 ≡ 4
  pub source : inner_src payload ≡ session.virtual_ip

module _ (write_ok : Addr → Bool) (now : ℕ) (s : Server) (hdr : Header) (payload : List ℕ)
    (from : Addr) (packet : List ℕ) where
  forward_data-source :
      (session : ClientSession) (s' : Server) (c : ℕ) (t : Server) (e : Effect) (es : List Effect)
      → forward_data write_ok now s' c payload from packet session ≡ returns (t, e ∷ es)
      → (20 ≤ length payload)
        × (get_or payload 0 0 / 2 ^ 4 ≡ 4)
        × (inner_src payload ≡ session.virtual_ip)
  unfolding forward_data index
  forward_data-source session s' c t e es h = elim (Bool-cases (is_bad_inner payload)) [
    | inl bad ↦ absurd (bad_silent payload bad h)
    | inr good ↦ elim (Bool-cases (inner_src payload == session.virtual_ip)) [
      | inl same ↦ (ground arith, ground arith, ground arith)
      | inr differs ↦ absurd (ground (arith, h))
    ]
  ]
    where
      bad_silent :
          (p : List ℕ)
          → is_bad_inner p ≡ true
          → forward_data write_ok now s' c p from packet session ≢ returns (t, e ∷ es)
      bad_silent [] bad h' = absurd cc
      bad_silent (b ∷ bs) bad h' = ground (arith, h')

  pub handle_data-forward :
      (session : ClientSession)
      → (is_duplicate s.dedup hdr.client_id hdr.seq).0 ≡ false
      → lookup hdr.client_id s.sessions ≡ some session
      → handle_data write_ok now s hdr payload from packet
        ≡ forward_data write_ok now
            (record s { dedup = (is_duplicate s.dedup hdr.client_id hdr.seq).1 })
            hdr.client_id
            payload
            from
            packet
            session
  unfolding handle_data
  handle_data-forward session fresh known = rw (fresh, handle_data) (rw known refl)

  -- If a data packet makes the server send or write anything, its client has a session, it is no
  -- duplicate, its payload has 20 bytes at least and IP version 4, and its inner source address is
  -- the one of the session.
  pub handle_data-IsAdmitted :
      (t : Server) (e : Effect) (es : List Effect)
      → handle_data write_ok now s hdr payload from packet ≡ returns (t, e ∷ es)
      → IsAdmitted s hdr payload
  unfolding handle_data
  handle_data-IsAdmitted t e es h =
      elim (Bool-cases (is_duplicate s.dedup hdr.client_id hdr.seq).0) [
        | inl dup ↦ absurd (ground (arith, h))
        | inr fresh ↦ elim (Option-cases (lookup hdr.client_id s.sessions)) [
          | inl none' ↦ absurd (ground (arith, h))
          | inr (session, e') ↦
              let (whole, version, source) =
                forward_data-source session _ hdr.client_id t e es
                  (sym (handle_data-forward session fresh e') ∙ h) in
              record {
                session = session;
                known = e';
                fresh = fresh;
                whole = whole;
                version = version;
                source = source;
              }
        ]
      ]
