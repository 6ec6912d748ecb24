-- ===== src/Tests/Wire.antt =====
-- Concrete messages, HMACs and base64: the parameters of the models of crates/wolfe-p2p and
-- crates/wolfe-rpc/src/l402.rs, instantiated.
use bitcoin_wolfe.Prelude.{
  ℕ, zero, suc, ◌%◌, ◌≡◌, refl, sym, ap, ◌∙◌, Bool, true, false, ◌&&◌, Option, none, some, [], ◌∷◌,
  ◌++◌, arith, length, length-append, drop, drop-append, replicate, ltb, lt→ltb, if◌then◌else◌,
}
use bitcoin_wolfe.Bytes.{Bytes, AreBytes, to_le_bytes, length-to_le}
use bitcoin_wolfe.P2p.Codec.{MessageLib}
use bitcoin_wolfe.P2p.Peer.{
  NetworkMessage, version, verack, send_headers, block, tx, headers, ping, pong, other,
}
use bitcoin_wolfe.P2p.Connection.{HandshakeLib}
use bitcoin_wolfe.Rpc.L402.{CryptoLib}

abbrev flag : Bool → ℕ
flag true = 1
flag false = 0

abbrev is_set : ℕ → Bool
is_set zero = false
is_set (suc n) = true

-- A payload begins with the number of its kind of message.
abbrev pub encode : NetworkMessage → Bytes
encode verack = 0 ∷ []
encode send_headers = 1 ∷ []
encode (ping n) = 2 ∷ n ∷ []
encode (pong n) = 3 ∷ n ∷ []
encode (block b) = 4 ∷ b
encode (tx b) = 5 ∷ b
encode (headers b) = 6 ∷ b
encode (other b) = 7 ∷ b
encode (version v) =
    8 ∷ v.version ∷ v.services ∷ v.start_height ∷ flag v.relay ∷ v.nonce ∷ v.user_agent

abbrev decode_version : Bytes → Option NetworkMessage
decode_version (ver ∷ services ∷ height ∷ relay ∷ nonce ∷ agent) = some (
    version (record {
      version = ver;
      services = services;
      user_agent = agent;
      start_height = height;
      relay = is_set relay;
      nonce = nonce;
    }))
decode_version _ = none

abbrev decode_nonce : (ℕ → NetworkMessage) → Bytes → Option NetworkMessage
decode_nonce f (n ∷ []) = some (f n)
decode_nonce f _ = none

abbrev pub decode : Bytes → Option NetworkMessage
decode [] = none
decode (zero ∷ b) = some verack
decode (suc zero ∷ b) = some send_headers
decode (suc (suc zero) ∷ b) = decode_nonce ping b
decode (suc (suc (suc zero)) ∷ b) = decode_nonce pong b
decode (suc (suc (suc (suc zero))) ∷ b) = some (block b)
decode (suc (suc (suc (suc (suc zero)))) ∷ b) = some (tx b)
decode (suc (suc (suc (suc (suc (suc zero))))) ∷ b) = some (headers b)
decode (suc (suc (suc (suc (suc (suc (suc zero)))))) ∷ b) = some (other b)
decode (suc (suc (suc (suc (suc (suc (suc (suc n))))))) ∷ b) = decode_version b

is_set-flag : (b : Bool) → is_set (flag b) ≡ b
is_set-flag true = refl
is_set-flag false = refl

decode-encode : (m : NetworkMessage) → decode (encode m) ≡ some m
decode-encode verack = refl
decode-encode send_headers = refl
decode-encode (ping n) = refl
decode-encode (pong n) = refl
decode-encode (block b) = refl
decode-encode (tx b) = refl
decode-encode (headers b) = refl
decode-encode (other b) = refl
decode-encode (version v) = ap (λ r. some (version (record v { relay = r }))) (is_set-flag v.relay)

-- A frame of 24 bytes before the payload.
length-frame :
    (magic : Bytes) (m : NetworkMessage)
    → length magic ≡ 4
    → length (magic ++ (replicate 12 0 ++ (to_le_bytes 4 (length (encode m)) ++ replicate 4 0)))
      ≡ 24
length-frame magic m four =
    let len = to_le_bytes 4 (length (encode m)) in
    omega (
      arith,
      four,
      length-append magic (replicate 12 0 ++ (len ++ replicate 4 0)),
      length-append len (replicate 4 0),
      length-to_le 4 (length (encode m)),
    )

pub decode-frame :
    (magic : Bytes) (m : NetworkMessage)
    → length magic ≡ 4
    → decode (
        drop 24 (
          (magic ++ (replicate 12 0 ++ (to_le_bytes 4 (length (encode m)) ++ replicate 4 0)))
          ++ encode m))
      ≡ some m
decode-frame magic m four =
    let front = magic ++ (replicate 12 0 ++ (to_le_bytes 4 (length (encode m)) ++ replicate 4 0)) in
    ap (λ n. decode (drop n (front ++ encode m))) (sym (length-frame magic m four))
    ∙ ap decode (drop-append front (encode m))
    ∙ decode-encode m

abbrev pub codec : MessageLib
codec = record {
  Message = NetworkMessage;
  command = λ m. replicate 12 0;
  payload = encode;
  checksum = λ b. replicate 4 0;
  consensus_decode = λ b. decode (drop 24 b);
  length-command = λ m. refl;
  length-checksum = λ b. refl;
  decode-frame = decode-frame;
}

abbrev pub handshake : HandshakeLib
handshake = record {
  codec = codec;
  view = λ m. m;
  version_message = version;
  verack_message = verack;
  package_version = 49 ∷ [];
  view-version = λ v. refl;
  view-verack = refl;
}

abbrev all_bytes : Bytes → Bool
all_bytes [] = true
all_bytes (b ∷ bs) = ltb b 256 && all_bytes bs

all_bytes-AreBytes : (bs : Bytes) → all_bytes bs ≡ true → AreBytes bs
all_bytes-AreBytes [] h = tt
all_bytes-AreBytes (b ∷ bs) h = (ground arith, all_bytes-AreBytes bs (ground arith))

AreBytes-all_bytes : (bs : Bytes) → AreBytes bs → all_bytes bs ≡ true
AreBytes-all_bytes [] a = refl
AreBytes-all_bytes (b ∷ bs) (small, a) = rw (lt→ltb b 256 small) (AreBytes-all_bytes bs a)

-- A text that is its own encoding, where it is bytes.
abbrev plain : Bytes → Option Bytes
plain text = if all_bytes text then some text else none

pub plain-encode : (bytes : Bytes) → AreBytes bytes → plain bytes ≡ some bytes
plain-encode bytes a = rw (AreBytes-all_bytes bytes a) refl

pub plain-AreBytes : (text bytes : Bytes) → plain text ≡ some bytes → AreBytes bytes
plain-AreBytes text bytes h = all_bytes-AreBytes bytes (ground (arith, h))

abbrev pub hash₇ : Bytes
hash₇ = replicate 32 7

pub length-hash₇ : (text hash : Bytes) → Option.some hash₇ ≡ some hash → length hash ≡ 32
length-hash₇ text hash h = ground (arith, h)

pub hash₇-AreBytes : (text hash : Bytes) → Option.some hash₇ ≡ some hash → AreBytes hash
hash₇-AreBytes text hash h = ground (arith, h)

pub tag-AreBytes : (message : Bytes) → AreBytes (replicate 32 (length message % 256))
tag-AreBytes message = omega arith

abbrev pub crypto : CryptoLib
crypto = record {
  hmac_sha256 = λ key message. replicate 32 (length message % 256);
  encode = λ b. b;
  decode = plain;
  payment_hash = λ text. some hash₇;
  length-hmac = λ key message. refl;
  decode-encode = plain-encode;
  decode-AreBytes = plain-AreBytes;
  hmac-AreBytes = λ key message. tag-AreBytes message;
  length-payment_hash = length-hash₇;
  payment_hash-AreBytes = hash₇-AreBytes;
}
