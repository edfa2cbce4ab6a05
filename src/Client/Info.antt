-- ===== src/Client/Info.antt =====
-- `get_info` of xvc-client/src/lib.rs on a server's reply.
use xvc_rs.Prelude.{
  ◌≡◌, ◌≢◌, refl, sym, ◌∙◌, inl, inr, List, [], ◌∷◌, ◌++◌, map, append_assoc, arith, Bytes,
  AreChunks, joined, append-cases, eq-nil_left, ok,
}
use xvc_rs.Protocol.{XvcInfo}
use xvc_rs.Codec.Info.RoundTrip.{IsInfo}
use xvc_rs.Rw.Write.{info_line}
use xvc_rs.TokioCodec.Buffer.{Buffer}
use xvc_rs.TokioCodec.XvcInfoDecoder.RoundTrip.{decode-info_line, decode_part}
use xvc_rs.Client.{Incoming, received, failed, read_info}

module _ (b : Buffer) where
  read_info_ready :
      (i : XvcInfo) (r : Bytes) (incoming : List Incoming)
      → IsInfo i
      → read_info b incoming (info_line i ++ r) ≡ ok i
  unfolding read_info
  read_info_ready i r [] w = rw (decode-info_line b i r w)
  read_info_ready i r (received s ∷ incoming) w = rw (decode-info_line b i r w)
  read_info_ready i r (failed e ∷ incoming) w = rw (decode-info_line b i r w)

  read_info_more :
      (i : XvcInfo) (buf q s : Bytes) (incoming : List Incoming)
      → info_line i ≡ buf ++ q
      → q ≢ []
      → s ≢ []
      → read_info b (received s ∷ incoming) buf ≡ read_info b incoming (buf ++ s)
  unfolding read_info
  read_info_more i buf q [] incoming e ne ns = absurd (ns refl)
  read_info_more i buf q (c ∷ s) incoming e ne ns = rw (decode_part b i buf q e ne) (ground arith)

  -- If the line of a server info whose numbers fit 64 and 32 bits, with more bytes behind it, is in
  -- the buffer and in non-empty reads, cut in any way, then the loop of the client's `get_info`
  -- returns that info.
  pub read_info-chunks :
      (i : XvcInfo) (rest : Bytes) (chunks : List Bytes) (buf : Bytes)
      → IsInfo i
      → AreChunks chunks
      → buf ++ joined chunks ≡ info_line i ++ rest
      → read_info b (map received chunks) buf ≡ ok i
  read_info-chunks i rest [] buf w hc e = elim (append-cases buf [] (info_line i) rest e) [
    | inl (r, p, t) ↦ rw p (read_info_ready i r [] w)
    | inr (q, ne, p, t) ↦ absurd (ne (eq-nil_left q rest (sym t)))
  ]
  read_info-chunks i rest (s ∷ chunks) buf w (hs, hc) e =
      elim (append-cases buf (s ++ joined chunks) (info_line i) rest e) [
        | inl (r, p, t) ↦ rw p (read_info_ready i r (map received (s ∷ chunks)) w)
        | inr (q, ne, p, t) ↦
            read_info_more i buf q s (map received chunks) p ne hs
            ∙ read_info-chunks i rest chunks (buf ++ s) w hc
                (append_assoc buf s (joined chunks) ∙ e)
      ]
