-- ===== src/Joint/Rewriting.antt =====
-- The source address as rewritten by tunReadLoop of internal/client/client.go, byte by byte.
use mpfpv.Prelude.{
  ℕ, zero, suc, ◌+◌, ◌/◌, ◌^◌, ◌<◌, ◌≤◌, ◌≡◌, ◌≢◌, refl, sym, ap, ◌∙◌, arith, List, [], ◌∷◌, false,
  length, take, drop, get_or, length-drop, drop_nil, bytes_beq, bytes_beq_iff, Bool-cases, inl, inr,
  nat_eq,
}
use mpfpv.Prelude.Outcome.{returns}
use mpfpv.Prelude.Slices.{put}
use mpfpv.Protocol.Packet.{be32, uint32_at}
use mpfpv.Protocol.Packet.Headers.{AreBytes}
use mpfpv.Server.State.{addr_eq}
use mpfpv.Server.Data.{inner_src}
use mpfpv.Client.State.{Client, ipv4_zero}
use mpfpv.Client.Checksum.{header_length, recalc_ipv4_checksum}
use mpfpv.Client.Checksum.Verified.{IsVerified, recalc_ipv4_checksum-IsVerified}
use mpfpv.Client.Checksum.Total.{length-put}
use mpfpv.Client.Sending.{rewrite_source}

get_or-drop : (n i : ℕ) (b : List ℕ) (d : ℕ) → get_or (drop n b) i d ≡ get_or b (n + i) d
get_or-drop zero i b d = let e : 0 + i ≡ i = omega arith in rw e refl
get_or-drop (suc n) i [] d = refl
get_or-drop (suc n) i (x ∷ b) d =
    let e : suc n + i ≡ suc (n + i) = omega arith in rw e (get_or-drop n i b d)

pub uint32_at-drop : (n : ℕ) (b : List ℕ) → uint32_at b n ≡ uint32_at (drop n b) 0
uint32_at-drop n b =
    let e : n + 0 ≡ n = omega arith in
    let first : get_or (drop n b) 0 0 ≡ get_or b n 0 =
      get_or-drop n 0 b 0 ∙ ap (λ (i : ℕ). get_or b i 0) e in
    omega (arith, first, get_or-drop n 1 b 0, get_or-drop n 2 b 0, get_or-drop n 3 b 0)

first-take : (n : ℕ) (b : List ℕ) → get_or (take (suc n) b) 0 0 ≡ get_or b 0 0
first-take n [] = refl
first-take n (x ∷ b) = refl

drop-drop : (k n : ℕ) (b : List ℕ) → drop k (drop n b) ≡ drop (n + k) b
drop-drop k zero b = let e : 0 + k ≡ k = omega arith in rw e refl
drop-drop k (suc n) [] = drop_nil k ∙ sym (drop_nil (suc n + k))
drop-drop k (suc n) (x ∷ b) =
    let e : suc n + k ≡ suc (n + k) = omega arith in rw e (drop-drop k n b)

-- A packet as the TUN device hands it over: bytes, with a whole IPv4 header.
pub record IsIpv4 (packet : List ℕ) : Type 0 where
  pub bytes : AreBytes packet
  pub version : get_or packet 0 0 / 2 ^ 4 ≡ 4
  pub long : 20 ≤ header_length (get_or packet 0 0)
  pub inside : header_length (get_or packet 0 0) ≤ length packet

be32_value : (v : ℕ) → v < 2 ^ 32 → uint32_at (be32 v) 0 ≡ v
be32_value v h = omega arith

be32_nonzero : (v : ℕ) → v < 2 ^ 32 → v ≢ 0 → bytes_beq (be32 v) ipv4_zero ≡ false
be32_nonzero v h nonzero = elim (Bool-cases (bytes_beq (be32 v) ipv4_zero)) [
  | inr differs ↦ differs
  | inl same ↦ absurd (
      nonzero (
        sym (be32_value v h)
        ∙ ap (λ (b : List ℕ). uint32_at b 0) ((bytes_beq_iff (be32 v) ipv4_zero).0 same)))
]

-- The packet with the source address `v` and the checksum that fits it.
pub record IsRewritten (v : ℕ) (packet payload : List ℕ) : Type 0 where
  pub verified : IsVerified payload
  pub source : inner_src payload ≡ v
  pub first : get_or payload 0 0 ≡ get_or packet 0 0
  pub length' : length payload ≡ length packet
  pub rest : drop 16 payload ≡ drop 16 packet

rewritten :
    (v : ℕ) (packet : List ℕ)
    → v < 2 ^ 32
    → IsIpv4 packet
    → (payload : List ℕ) × (recalc_ipv4_checksum (put packet 12 (be32 v)) ≡ returns payload)
      × IsRewritten v packet payload
rewritten v
      (b0 ∷ b1 ∷ b2 ∷ b3 ∷ b4 ∷ b5 ∷ b6 ∷ b7 ∷ b8 ∷ b9 ∷ b10 ∷ b11 ∷ b12 ∷ b13 ∷ b14 ∷ b15 ∷ b16
        ∷ rest)
      h valid =
    let packet : List ℕ =
      b0 ∷ b1 ∷ b2 ∷ b3 ∷ b4 ∷ b5 ∷ b6 ∷ b7 ∷ b8 ∷ b9 ∷ b10 ∷ b11 ∷ b12 ∷ b13 ∷ b14 ∷ b15 ∷ b16
      ∷ rest in
    let (
      p0,
      (
        p1,
        (
          p2,
          (p3, (p4, (p5, (p6, (p7, (p8, (p9, (p10, (p11, (p12, (p13, (p14, (p15, bytes))))))))))))),
        ),
      ),
    ) =
      valid.bytes in
    let (payload, run, verified, before, behind) =
      recalc_ipv4_checksum-IsVerified (put packet 12 (be32 v))
        (
          p0,
          (
            p1,
            (
              p2,
              (
                p3,
                (
                  p4,
                  (
                    p5,
                    (
                      p6,
                      (
                        p7,
                        (
                          p8,
                          (
                            p9,
                            (
                              p10,
                              (
                                p11,
                                (omega arith, (omega arith, (omega arith, (omega arith, bytes)))),
                              ),
                            ),
                          ),
                        ),
                      ),
                    ),
                  ),
                ),
              ),
            ),
          ),
        )
        valid.long (omega (arith, valid.inside, length-put packet 12 (be32 v))) in
    (
      payload,
      run,
      record {
        verified = verified;
        source =
            uint32_at-drop 12 payload ∙ ap (λ (b : List ℕ). uint32_at b 0) behind ∙ omega arith;
        first = sym (first-take 9 payload) ∙ ap (λ (b : List ℕ). get_or b 0 0) before;
        length' = omega (arith, length-drop 12 payload, ap length behind);
        rest = sym (drop-drop 4 12 payload) ∙ ap (λ (b : List ℕ). drop 4 b) behind;
      },
    )
rewritten v _ h valid = absurd (omega (arith, valid.long, valid.inside))

module _ (c : Client) (v : ℕ) (assigned : c.virtual_ip ≡ be32 v) (small : v < 2 ^ 32)
    (nonzero : v ≢ 0) where
  pub rewrite_source-IsRewritten :
      (packet : List ℕ)
      → IsIpv4 packet
      → (payload : List ℕ) × (rewrite_source c packet ≡ returns payload)
        × IsRewritten v packet payload
  unfolding rewrite_source
  rewrite_source-IsRewritten packet valid =
      let (payload, run, is_rewritten) = rewritten v packet small valid in
      let four : length c.virtual_ip ≡ 4 = ap length assigned in
      let set' : bytes_beq c.virtual_ip ipv4_zero ≡ false =
        ap (λ ip. bytes_beq ip ipv4_zero) assigned ∙ be32_nonzero v small nonzero in
      let run' : recalc_ipv4_checksum (put packet 12 c.virtual_ip) ≡ returns payload =
        ap (λ ip. recalc_ipv4_checksum (put packet 12 ip)) assigned ∙ run in
      (payload, ground (arith, four, set', run'), is_rewritten)
