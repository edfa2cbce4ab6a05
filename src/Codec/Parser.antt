-- ===== src/Codec/Parser.antt =====
-- The parsers of xvc-protocol/src/codec.rs as a monad: `buf: &mut &[u8]` is threaded as a state that
-- an early return by `?` leaves as it is.
use xvc_rs.Prelude.{Bytes, Outcome, ok, err, panic}
use xvc_rs.Errors.{ParseErr}

abbrev pub ParseResult {ℓ} : Type ℓ → Type ℓ
ParseResult A = Outcome ParseErr A

abbrev pub Parser {ℓ} : Type ℓ → Type ℓ
Parser A = Bytes → ParseResult A × Bytes

abbrev pub then_parse {ℓ κ} :
    {A : Type ℓ} {B : Type κ} → ParseResult A × Bytes → (A → Parser B) → ParseResult B × Bytes
then_parse (ok a, buf) f = f a buf
then_parse (err e, buf) f = (err e, buf)
then_parse (panic, buf) f = (panic, buf)

infixl 5 ◌>>=◌
abbrev pub ◌>>=◌ {ℓ κ} : {A : Type ℓ} {B : Type κ} → Parser A → (A → Parser B) → Parser B
m >>= f = λ buf. then_parse (m buf) f

abbrev pub pure {ℓ} : {A : Type ℓ} → A → Parser A
pure a buf = (ok a, buf)

-- `*buf = r.0` once the calls on a `SliceReader(buf)` are through.
abbrev pub commit {ℓ} : {A : Type ℓ} → Bytes → ParseResult (A × Bytes) → ParseResult A × Bytes
commit buf (ok (a, r)) = (ok a, r)
commit buf (err e) = (err e, buf)
commit buf panic = (panic, buf)
