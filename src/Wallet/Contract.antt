-- ===== src/Wallet/Contract.antt =====
-- What the wallet promises of each escrow, without its table: an escrow for an order and a payee is
-- not there, or held, or released, or refunded, and three operations move it.
pub mod Kept
pub mod Refines
use yukbor_backend.Common.{
  String, Option, none, some, ◌&&◌, List, [], ◌∷◌, ◌==◌, string_Eq, if◌then◌else◌,
}
use yukbor_backend.Models.Enums.{TransactionStatus, transaction_status_Eq}

pub data Op : Type 0 where
  open_escrow release : String → String → Op
  refund : String → Op

-- `none`: there is no escrow.
abbrev pub Phase : Type 0
Phase = Option TransactionStatus

abbrev pub opened : Phase → Phase
opened none = some TransactionStatus.held
opened (some st) = some st

-- Only what is held is settled.
abbrev pub settled_as : TransactionStatus → Phase → Phase
settled_as to none = none
settled_as to (some st) = some (if st == TransactionStatus.held then to else st)

-- What an operation makes of the escrow of an order and a payee.
abbrev pub act : Op → String → String → Phase → Phase
act (Op.open_escrow o p) order payee st = if o == order && p == payee then opened st else st
act (Op.release o p) order payee st =
    if o == order && p == payee then settled_as TransactionStatus.released st else st
act (Op.refund o) order payee st =
    if o == order then settled_as TransactionStatus.refunded st else st

abbrev pub act_all : List Op → String → String → Phase → Phase
act_all [] order payee st = st
act_all (op ∷ ops) order payee st = act_all ops order payee (act op order payee st)
