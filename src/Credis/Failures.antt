-- ===== src/Credis/Failures.antt =====
-- The error that the Decoder and the Encoder keep.
use ipfs_nosql_frame.Prelude.{
  ℕ, ◌≡◌, ◌⊎◌, inl, inr, refl, Bool, Option, none, some, Result, ok, err, if◌then◌else◌,
}
use ipfs_nosql_frame.Credis.Resp.{Resp, RespArray}
use ipfs_nosql_frame.Credis.Source.{Source, Sink}
use ipfs_nosql_frame.Credis.Decoder
use ipfs_nosql_frame.Credis.Decoder.{Decoder, DecodeError, Decodes, failed_decoder, run, keep}
use ipfs_nosql_frame.Credis.Encoder
use ipfs_nosql_frame.Credis.Encoder.{Encoder, EncodeError, Encodes, failed_encoder, ◌>>◌}

-- After a call that returned an error, every later call refuses and leaves the decoder as it is.
abbrev pub Refuses : {S : Source} → Decoder S → Type 0
Refuses d =
    (g : ℕ)
    → (Decoder.decode g d ≡ (err failed_decoder, d))
      × (Decoder.decode_multi_bulk g d ≡ (err failed_decoder, d))

refuses : {S : Source} (d : Decoder S) (e : DecodeError) → d.err ≡ some e → Refuses d
unfolding Decoder.decode Decoder.decode_multi_bulk
refuses d e h g = (rw h, rw h)

-- What a method of the decoder ends in: a value and no error, or an error that is kept.
abbrev Settles : {S : Source} {A : Type 0} → Result DecodeError A × Decoder S → Type 0
Settles {A} (x, d) =
    ((a : A) × (x ≡ ok a) × (d.err ≡ none)) ⊎ ((e k : DecodeError) × (x ≡ err e) × (d.err ≡ some k))

kept :
    (S : Source) {A : Type 0} (x : Result DecodeError A) (r : S.Reader)
    → Settles {S = S} (x, record { br = r; err = keep x })
kept S (ok a) r = inl (a, refl, refl)
kept S (err e) r = inr (e, e, refl, refl)

run_at :
    {S : Source} {A : Type 0} (m : Decodes S.Reader A) (d : Decoder S) (o : Option DecodeError)
    → d.err ≡ o
    → Settles {S = S} {A = A} (elim o [
      | some e ↦ (err failed_decoder, d)
      | none ↦ ((m d.br).0, record { br = (m d.br).1; err = keep (m d.br).0 })
    ])
run_at {S} m d none fine = kept S (m d.br).0 (m d.br).1
run_at m d (some e) failed = inr (failed_decoder, e, refl, failed)

run-Settles : {S : Source} {A : Type 0} (m : Decodes S.Reader A) (d : Decoder S) → Settles (run m d)
run-Settles m d = run_at m d d.err refl

refused_after :
    {S : Source} {A : Type 0} (x : Result DecodeError A) (d : Decoder S)
    → Settles (x, d)
    → ((a : A) × (x ≡ ok a) × (d.err ≡ none)) ⊎ ((e : DecodeError) × (x ≡ err e) × Refuses d)
refused_after x d (inl fine) = inl fine
refused_after x d (inr (e, k, is_err, failed)) = inr (e, is_err, refuses d k failed)

-- `Decode` and `DecodeMultiBulk` either return a value and leave no error, or return an error, after
-- which every further call of either is refused and leaves the decoder as it is.
pub decode-Refuses :
    {S : Source} (f : ℕ) (d : Decoder S)
    → (((a : Resp) × ((Decoder.decode f d).0 ≡ ok a) × ((Decoder.decode f d).1.err ≡ none))
        ⊎ ((e : DecodeError) × ((Decoder.decode f d).0 ≡ err e) × Refuses (Decoder.decode f d).1))
      × (((a : RespArray) × ((Decoder.decode_multi_bulk f d).0 ≡ ok a)
            × ((Decoder.decode_multi_bulk f d).1.err ≡ none))
          ⊎ ((e : DecodeError) × ((Decoder.decode_multi_bulk f d).0 ≡ err e)
              × Refuses (Decoder.decode_multi_bulk f d).1))
unfolding Decoder.decode Decoder.decode_multi_bulk
decode-Refuses {S} f d = (
  refused_after _ _ (run-Settles (Decoder.decode_resp S f) d),
  refused_after _ _ (run-Settles (Decoder.decode_multi_bulk_body S f) d),
)

-- After an error the encoder refuses everything and leaves the writer alone.
abbrev pub Stops : {S : Sink} → Encoder S → Type 0
Stops e =
    (r : Resp) (multi : RespArray) (flush : Bool)
    → (Encoder.encode r flush e ≡ (some failed_encoder, e))
      × (Encoder.encode_multi_bulk multi flush e ≡ (some failed_encoder, e))
      × (Encoder.flush e ≡ (some failed_encoder, e))

stops : {S : Sink} (e : Encoder S) (x : EncodeError) → e.err ≡ some x → Stops e
unfolding Encoder.encode Encoder.encode_multi_bulk Encoder.flush
stops e x h r multi flush = (rw h, rw h, rw h)

abbrev Ends : {S : Sink} → Option EncodeError × Encoder S → Type 0
Ends (o, e) = ((o ≡ none) × (e.err ≡ none)) ⊎ ((x : EncodeError) × (o ≡ some x) × Stops e)

ended :
    {S : Sink} (o : Option EncodeError) (w : S.Writer)
    → Ends {S = S} (o, record { bw = w; err = o })
ended none w = inl (refl, refl)
ended (some x) w = inr (x, refl, stops _ x refl)

ended_at :
    {S : Sink} (m : Encodes S.Writer) (e : Encoder S) (o : Option EncodeError)
    → e.err ≡ o
    → Ends {S = S} (elim o [
      | some _ ↦ (some failed_encoder, e)
      | none ↦ let (er, w) = m e.bw in (er, record { bw = w; err = er })
    ])
ended_at m e none fine = ended (m e.bw).0 (m e.bw).1
ended_at m e (some x) failed = inr (failed_encoder, refl, stops e x failed)

-- `Encode` returns an error exactly when it leaves one in the encoder, and then every further call of
-- Encode, EncodeMultiBulk or Flush is refused and leaves the encoder as it is.
pub encode-Stops :
    {S : Sink} (r : Resp) (flush : Bool) (e : Encoder S)
    → (((Encoder.encode r flush e).0 ≡ none) × ((Encoder.encode r flush e).1.err ≡ none))
      ⊎ ((x : EncodeError) × ((Encoder.encode r flush e).0 ≡ some x)
          × Stops (Encoder.encode r flush e).1)
unfolding Encoder.encode
encode-Stops {S} r flush e =
    ended_at
      (Encoder.encode_resp S r >> (if flush then Encoder.lift_io S.flush else Encoder.return)) e
      e.err refl
