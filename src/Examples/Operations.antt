-- ===== src/Examples/Operations.antt =====
-- The theorems on operations at concrete arguments.
use py_stellar_base.Prelude.{some}
use py_stellar_base.Examples.{xmodem}
use py_stellar_base.Examples.Keys.{
  client, client_valid, muxed_server, muxed_server_valid, usd, usd_valid, some_amount,
  some_amount_accepted,
}
use py_stellar_base.Operation.Payment
use py_stellar_base.Operation.Payment.{Payment, payment-from_xdr-to_xdr}

abbrev pub op_payment : Payment
op_payment = record {
  source = some client;
  destination = muxed_server;
  asset = usd;
  amount = some_amount;
}

pub op_payment_valid : Payment.IsValid xmodem op_payment
op_payment_valid = record {
  source = client_valid;
  destination = muxed_server_valid;
  asset = usd_valid;
  amount = some_amount_accepted;
}
