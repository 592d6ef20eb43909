-- ===== src/Sc/Served.antt =====
-- resper.go: the loop of a connection, from the bytes of the requests to those of the replies.
use ipfs_nosql_frame.Prelude.{
  ℕ, ◌≤◌, ℤ, ◌≡◌, refl, subst, Bool, true, false, Option, none, List, [], ◌∷◌, ◌++◌, append_assoc,
  Bytes, All, if◌then◌else◌,
}
use ipfs_nosql_frame.Credis.Source.{Source}
use ipfs_nosql_frame.Credis.Resp.{Resp}
use ipfs_nosql_frame.Credis.Encoding.{encoding, IsValid, nodes}
use ipfs_nosql_frame.Credis.Decoder.{Decoder}
use ipfs_nosql_frame.Credis.RoundTrip.{decode-encoding}
use ipfs_nosql_frame.Bufio2.Conn.{Outbound}
use ipfs_nosql_frame.Rediscluster.Lists.{StringMap}
use ipfs_nosql_frame.Sc.Backend.{Backend}
use ipfs_nosql_frame.Sc.Alerts.{MspEvent}
use ipfs_nosql_frame.Sc.Session.{Session, Moment}
use ipfs_nosql_frame.Sc.Handler
use ipfs_nosql_frame.Sc.Handler.{serve}

-- What the requests of a client look like on the wire.
abbrev pub requests_text : {M : Type 0} → List (M × Resp) → Bytes
requests_text [] = []
requests_text ((m, x) ∷ requests) = encoding x ++ requests_text requests

abbrev pub moments_of : {M : Type 0} → List (M × Resp) → List M
moments_of [] = []
moments_of ((m, x) ∷ requests) = m ∷ moments_of requests

-- Valid values that are no deeper than the fuel.
abbrev pub AreServed : {M : Type 0} → ℕ → List (M × Resp) → Type 0
AreServed fuel requests = All (λ p. (nodes p.1 ≤ fuel) × IsValid p.1) requests

first_of_if :
    {A C : Type 0} (b : Bool) (p q : A × C) (x y : C)
    → p.1 ≡ x
    → q.1 ≡ y
    → (if b then p else q).1 ≡ (if b then x else y)
first_of_if true p q x y h g = h
first_of_if false p q x y h g = g

module _ {Float L H : Type 0} (O : Outbound) (B : Backend Float)
    (take : L → Bytes → B.World → (ℤ × ℤ) × B.World) (marshal_event : MspEvent → Option Bytes)
    (marshal_map : StringMap → Option Bytes) (sc_log_num : ℕ) where
  -- The requests handled one after another, until one of them closes the connection.
  abbrev pub handle_all : List (Moment L H × Resp) → Session O B → Session O B
  handle_all [] s = s
  handle_all ((m, x) ∷ requests) s =
      let s' = Handler.handle O B take marshal_event marshal_map sc_log_num m x s in
      let rest = handle_all requests s' in if s'.closed then s' else rest

  -- The loop of a connection whose reader holds the encodings of requests, which are valid values and no
  -- deeper than the fuel, and whatever else, does exactly what handling the requests one after another
  -- does, until one of them closes the connection, in whatever parts the bytes arrive. (The reader has a
  -- buffer of at least 32 bytes, and the decoder has not failed.)
  pub serve-handle_all :
      {S : Source} (fuel : ℕ) (requests : List (Moment L H × Resp)) (rest : Bytes) (d : Decoder S)
      (s : Session O B)
      → 32 ≤ S.size
      → AreServed fuel requests
      → d.err ≡ none
      → S.Holds (requests_text requests ++ rest) d.br
      → (serve O B take marshal_event marshal_map sc_log_num fuel (moments_of requests) d s).1
        ≡ handle_all requests s
  unfolding serve
  serve-handle_all fuel [] rest d s sized valid fine h = refl
  serve-handle_all {S = S} fuel ((m, x) ∷ requests) rest d s sized ((enough, valid), others) fine
        h =
      let (d', runs, fine', h') =
        decode-encoding S sized fuel x (requests_text requests ++ rest) d enough valid fine (
          subst (λ t. S.Holds t d.br) (append_assoc (encoding x) (requests_text requests) rest)
            h) in
      let s' = Handler.handle O B take marshal_event marshal_map sc_log_num m x s in
      rw (runs) (
        first_of_if s'.closed (d', s')
          (serve O B take marshal_event marshal_map sc_log_num fuel (moments_of requests) d' s') s'
          (handle_all requests s') refl
          (serve-handle_all fuel requests rest d' s' sized others fine' h'))
