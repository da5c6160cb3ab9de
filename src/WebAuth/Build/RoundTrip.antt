-- ===== src/WebAuth/Build/RoundTrip.antt =====
-- A challenge that build_challenge_transaction makes is read by read_challenge_transaction.
use py_stellar_base.Prelude.{
  ℕ, ◌+◌, ◌*◌, ◌≤◌, ◌≡◌, refl, arith, true, false, not, ◌||◌, none, some, List, [], ◌∷◌, length,
  leb, ==_iff, list_eq_refl, All, inr,
}
use py_stellar_base.Prelude.Int.{pos, negsuc, ◌==ℤ◌, ◌+ℤ◌, ltb_ℤ}
use py_stellar_base.Error.{ok}
use py_stellar_base.Base32.{IsByte}
use py_stellar_base.Base64.{b64encode}
use py_stellar_base.Base64.RoundTrip.{b64decode-b64encode, length-b64encode}
use py_stellar_base.Text.{encode_utf8}
use py_stellar_base.Text.Utf8.{IsCodePoint}
use py_stellar_base.StrKey.{Crc16}
use py_stellar_base.Memo.{bytes, none_memo}
use py_stellar_base.MuxedAccount.{MuxedAccount}
use py_stellar_base.MuxedAccount.RoundTrip as AccountLaws
use py_stellar_base.TimeBounds.{time_bounds}
use py_stellar_base.Operation as Operation
use py_stellar_base.Operation.ManageData
use py_stellar_base.Operation.ManageData.{
  ManageData, valid_data_val_len, text_length, data_value_bytes,
}
use py_stellar_base.Operation.Dispatch.{manage_data}
use py_stellar_base.Transaction.{Transaction}
use py_stellar_base.Transaction.RoundTrip as TransactionLaws
use py_stellar_base.Transaction.RoundTrip.{from_account_key, sent_back}
use py_stellar_base.Envelope.{TransactionEnvelope, network_id}
use py_stellar_base.FeeBump.{times}
use py_stellar_base.Builder.History.{build_lem}
use py_stellar_base.Builder.{
  TransactionBuilder, account, transaction_builder, add_time_bounds, append_operation,
}
use py_stellar_base.Builder.Append.{append_manage_data_op, append_result}
use py_stellar_base.WebAuth.Read.{
  bounds_of, as_manage_data, manage_data_of, client_of, value_of, check_transaction,
}
use py_stellar_base.WebAuth.Build.{challenge_name, unsigned_challenge}

-- An account text without an identifier
abbrev pub plain : List ℕ → MuxedAccount
plain account_id = record { account_id = account_id; account_id_id = none }

-- What a server needs for a challenge: a client, a name that fits, 48 bytes and a timeout.
pub record IsReady (crc : Crc16) (sha256 : List ℕ → List ℕ) (timeout : ℕ)
    (nonce server client anchor passphrase id : List ℕ) : Type 0 where
  pub server_valid : AccountLaws.IsValid crc (plain server)
  pub client_valid : AccountLaws.IsValid crc (plain client)
  pub points : All IsCodePoint (challenge_name anchor)
  pub name : List ℕ
  pub encoded : encode_utf8 (challenge_name anchor) ≡ ok name
  pub short : leb (length (challenge_name anchor)) 64 ≡ true
  pub nonce_bytes : All IsByte nonce
  pub nonce_size : length nonce ≡ 48
  pub timed : 1 ≤ timeout
  pub network : network_id sha256 passphrase ≡ ok id

abbrev pub challenge_op : List ℕ → List ℕ → List ℕ → ManageData
challenge_op nonce client anchor = record {
  source = some (plain client);
  data_name = challenge_name anchor;
  data_value = some (bytes (b64encode nonce));
}

abbrev pub challenge_tx : ℕ → ℕ → List ℕ → List ℕ → List ℕ → List ℕ → Transaction
challenge_tx now timeout nonce server client anchor = record {
  source = plain server;
  sequence = pos 0;
  fee = pos 100;
  operations = manage_data (challenge_op nonce client anchor) ∷ [];
  memo = none_memo;
  time_bounds = some (record { min_time = pos now; max_time = pos (now + timeout) });
  v1 = false;
}

abbrev pub challenge_te : ℕ → ℕ → List ℕ → List ℕ → List ℕ → List ℕ → List ℕ → TransactionEnvelope
challenge_te now timeout nonce server client anchor id = record {
  network_id = id;
  signatures = [];
  transaction = challenge_tx now timeout nonce server client anchor;
}

encoded_size : (nonce : List ℕ) → length nonce ≡ 48 → length (b64encode nonce) ≡ 64
encoded_size nonce h = length-b64encode 16 nonce h

in_time :
    (n m : ℕ)
    → n ≤ m
    → time_bounds (pos n) (pos m) ≡ ok (record { min_time = pos n; max_time = pos m })
unfolding time_bounds
in_time n m h = ground arith

value_fits :
    (nonce : List ℕ)
    → length nonce ≡ 48
    → valid_data_val_len (some (bytes (b64encode nonce))) ≡ true
unfolding valid_data_val_len text_length
value_fits nonce h = rw (encoded_size nonce h) refl

add_ℤ_pos : (n m : ℕ) → pos n +ℤ pos m ≡ pos (n + m)
unfolding ◌+ℤ◌
add_ℤ_pos n m = ground arith

finite : (now timeout : ℕ) → 1 ≤ timeout → not (pos (now + timeout) ==ℤ pos 0) ≡ true
finite now timeout h = ground arith

inside :
    (now timeout m : ℕ)
    → now * 1000000 ≤ m
    → m ≤ (now + timeout) * 1000000
    → not (
        ltb_ℤ (pos m) (times (pos now) 1000000)
        || ltb_ℤ (times (pos (now + timeout)) 1000000) (pos m))
      ≡ true
unfolding times
inside now timeout m begun not_over = ground arith

module _ (crc : Crc16) (sha256 : List ℕ → List ℕ) (now timeout : ℕ)
    (nonce server client anchor passphrase id : List ℕ)
    (ready : IsReady crc sha256 timeout nonce server client anchor passphrase id) where
  pub challenge_tx_valid :
      TransactionLaws.IsValid crc (challenge_tx now timeout nonce server client anchor)
  unfolding data_value_bytes
  challenge_tx_valid = record {
    source = ready.server_valid;
    memo = tt;
    time_bounds = inr (omega arith);
    operations = (
      (
        ready.name,
        some (b64encode nonce),
        record {
          source = ready.client_valid;
          points = ready.points;
          encoded = ready.encoded;
          short = ready.short;
          value_encoded = refl;
        },
        value_fits nonce ready.nonce_size,
      ),
      tt,
    );
  }

  -- Nothing of it is lost on the way.
  pub sent_back-challenge_tx :
      sent_back crc (challenge_tx now timeout nonce server client anchor) challenge_tx_valid false
      ≡ challenge_tx now timeout nonce server client anchor
  unfolding challenge_tx_valid
  sent_back-challenge_tx = refl

  account_lem :
      account crc (Operation.address server) (negsuc 0)
      ≡ ok (record { account_id = plain server; sequence = negsuc 0 })
  unfolding account Operation.parse_mux_account_from_account
  account_lem = rw (from_account_key crc (plain server) ready.server_valid) refl

  add_time_bounds_lem :
      (b : TransactionBuilder)
      → add_time_bounds b (pos now) (pos now +ℤ pos timeout)
        ≡ ok (record b {
          time_bounds = some (record { min_time = pos now; max_time = pos (now + timeout) });
        })
  unfolding add_time_bounds
  add_time_bounds_lem b = rw (add_ℤ_pos now timeout, in_time now (now + timeout) (omega arith)) refl

  append_manage_data_op_lem :
      (b : TransactionBuilder)
      → append_manage_data_op crc b
          (challenge_name anchor)
          (some (bytes (b64encode nonce)))
          (some (Operation.address client))
        ≡ ok (append_operation b (manage_data (challenge_op nonce client anchor)))
  unfolding append_manage_data_op append_result ManageData.manage_data Operation.parse_source
      Operation.parse_mux_account_from_account
  append_manage_data_op_lem b =
      rw
        (
          from_account_key crc (plain client) ready.client_valid,
          ready.short,
          value_fits nonce ready.nonce_size,
        )
        refl

  pub unsigned_challenge_lem :
      unsigned_challenge crc sha256 (pos now) nonce server client anchor passphrase (pos timeout)
      ≡ ok (challenge_te now timeout nonce server client anchor id)
  unfolding unsigned_challenge transaction_builder append_operation times ◌+ℤ◌
  unsigned_challenge_lem =
      let opened =
        transaction_builder (record { account_id = plain server; sequence = negsuc 0 }) passphrase
          (pos 100) false in
      let timed = record opened {
        time_bounds = some (record { min_time = pos now; max_time = pos (now + timeout) });
      } in
      let ready_to_build =
        append_operation timed (manage_data (challenge_op nonce client anchor)) in
      rw
        (
          account_lem,
          add_time_bounds_lem opened,
          append_manage_data_op_lem timed,
          build_lem crc sha256 ready_to_build id ready.network,
        )
        refl

  -- A built challenge passes the checks of its fields from its making to its timeout.
  pub check_transaction-challenge_tx :
      (m : ℕ)
      → now * 1000000 ≤ m
      → m ≤ (now + timeout) * 1000000
      → check_transaction (pos m) (challenge_tx now timeout nonce server client anchor) server
        ≡ ok (plain client)
  unfolding check_transaction bounds_of as_manage_data manage_data_of client_of value_of times
  check_transaction-challenge_tx m begun not_over =
      rw
        (
          list_eq_refl server,
          finite now timeout ready.timed,
          inside now timeout m begun not_over,
          (==_iff (length (b64encode nonce)) 64).1 (encoded_size nonce ready.nonce_size),
          b64decode-b64encode nonce ready.nonce_bytes,
          (==_iff (length nonce) 48).1 ready.nonce_size,
        )
        refl
