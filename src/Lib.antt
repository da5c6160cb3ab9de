-- ===== src/Lib.antt =====
-- stellar_sdk, the Python SDK of the Stellar network: keys and their texts, assets, amounts, prices,
-- memos, the operations of a transaction, transactions and fee bumps with their XDR forms, envelopes and their
-- signatures, the builder of transactions, and the check of a web authentication challenge.
--
-- How the parts interact. A key or an account is text to the user and raw bytes to the network. StrKey
-- converts between the two by base 32 with a version byte and a checksum; Keypair and MuxedAccount build on
-- it, Asset on Keypair. An operation holds such values and decimals; `_to_operation_body` turns them into
-- the XDR body, and the classmethod `from_xdr_object` calls the constructor on what it reads, so the checks
-- of the constructor run again. A Transaction holds operations, a memo and time bounds; an envelope adds
-- the network and the signatures over the hash of both; a fee bump holds an envelope. The builder collects
-- operations, takes the next sequence number of its account and makes an envelope. Web authentication matches the signatures of an envelope to account texts.
--
-- Files, and the code that they follow:
--   Error        stellar_sdk/exceptions.py: a raised exception is an `err`, a return value an `ok`; `require`
--                is a guarded raise, `or_raise` a try that raises something else
--   Base32, Base64, Text  the routines of Python's base64, str and bytes that the SDK calls; text is a list of code
--                points, bytes a list of numbers
--   Xdr          the words of stellar_sdk/xdr/StellarXDR_pack.py that strkey.py packs by hand
--   StrKey       stellar_sdk/strkey.py
--   MuxedAccount stellar_sdk/muxed_account.py
--   Keypair      stellar_sdk/keypair.py
--   Memo         stellar_sdk/memo.py, the five classes as the constructors of one type
--   Asset        stellar_sdk/asset.py
--   TimeBounds   stellar_sdk/time_bounds.py
--   Signer       stellar_sdk/signer.py
--   Decimal      decimal.Decimal of Python: sign, coefficient and exponent, and the rounding of the default
--                context to 28 digits, half to even
--   Float        what the SDK uses of float: a quotient of ints rounded to 53 bits, its comparison with an int
--                and int(), in the fees of fee bumps and of the builder; Exact says where they are exact
--   Amount       to_xdr_amount and from_xdr_amount of stellar_sdk/operation/operation.py, check_amount of
--                stellar_sdk/operation/utils.py
--   Operation    stellar_sdk/operation/operation.py and operation/utils.py; each child module but Sources is
--                the class of its name, with a record for the object and one for the XDR body;
--                in Offers are the three offers, in Dispatch the union of the fourteen classes
--   Approximation best_rational_approximation of stellar_sdk/utils.py
--   Price        stellar_sdk/price.py
--   Transaction  stellar_sdk/transaction.py
--   Envelope     stellar_sdk/base_transaction_envelope.py, transaction_envelope.py and network.py
--   FeeBump      stellar_sdk/fee_bump_transaction.py, fee_bump_transaction_envelope.py and helpers.py
--   Builder      stellar_sdk/transaction_builder.py and account.py: the state holds the account and the list
--                of operations that the program and the built transactions share with the builder; Append
--                has the `append_*_op` methods, History the calls in any order as a step relation
--   WebAuth      stellar_sdk/sep/stellar_web_authentication.py, from the envelope that
--                read_challenge_transaction returns, and sep/ed25519_public_key_signer.py; in Build is
--                build_challenge_transaction, in Read are read_challenge_transaction and the functions that
--                call it, from the XDR object on, with the time as an argument, in seconds to build and in
--                millionths of a second to read
--   Examples     concrete arguments: the CRC-16/XMODEM, keys, operations and a signed challenge
-- The theorems stand in the children of a module: RoundTrip on what is read of what was written, Canonical on
-- the texts of one value, Validity on what is accepted, Exact and Rounding on the conversion of amounts,
-- Signatures, Accounts, Clients, Challenge, Acceptance, Accepted, Verified and Reading on web authentication,
-- Reciprocal, Loop and Lowest on the approximation, Laws and Stable on the union of the operations, Signing on signatures of an envelope,
-- Accepts on the fees of a fee bump, Reopened on a builder that is opened from an envelope.
--
-- Parameters. `Crc16` stands for the package crc16 (a value of 16 bits, 0 for no bytes) and `Ed25519` for
-- nacl.signing (keys of 32 bytes, and a signature verifies under its own key). Examples gives an instance of
-- each. Fuel: `digits_within` counts the digits of n with fuel n, which is enough, since each division by ten
-- lowers n. `approximate` has fuel for 48 rounds: after the first one every number is at least one, so that
-- the denominators grow as the Fibonacci numbers do, and the 48th of these is above 2 ^ 31 - 1 (Loop). The powers of
-- two that scale a float are searched with fuel by which they pass the bound (Float/Exact). Every other loop is by structure. The SHA-256 of hashlib is a function on bytes, and so is the packing of an
-- Xdr.types.Transaction or FeeBumpTransaction that the signature bases call.
--
-- Not modelled: text to Decimal and back, so amounts are decimals here; decimals whose exponent leaves the
-- range of the context, and negative prices, which the operations refuse; quotients of ints that are out of the
-- range of float; the packing of whole XDR structures to bytes, which is generated code, so an XDR form is a
-- record or a union; TypeError for arguments of another type; the aliases of verify_challenge_transaction;
-- mnemonics; federation, stellar.toml and Horizon, which are HTTP.
pub mod Prelude
pub mod Error
pub mod Base32
pub mod Base64
pub mod Text
pub mod Xdr
pub mod StrKey
pub mod MuxedAccount
pub mod Keypair
pub mod Memo
pub mod Asset
pub mod TimeBounds
pub mod Signer
pub mod Decimal
pub mod Float
pub mod Amount
pub mod Approximation
pub mod Price
pub mod Operation
pub mod Transaction
pub mod Envelope
pub mod FeeBump
pub mod Builder
pub mod WebAuth
pub mod Examples
