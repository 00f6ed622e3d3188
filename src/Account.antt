-- ===== src/Account.antt =====
-- Accounts (src/account/account.service.ts): the look-ups that the webhook services call.
pub mod Entity
use api_payment.Common.{String, Bool, false, Option, none, some, str_eq as ◌==◌}
use api_payment.Common.Exec.{Exec}
use api_payment.Platform.{Row, TypeOrm}
use api_payment.Database.{Db, find_one, account_repository}
use Entity.{Account, Onboarding}

abbrev has_document : String → Option Onboarding → Bool
has_document document none = false
has_document document (some onboarding) = onboarding.document_number == document

module _ (o : TypeOrm) where
  -- `findByNumber`
  unfoldable pub find_by_number : String → Exec (Db o) (Option (Row Account))
  find_by_number number = find_one o (account_repository o) (λ a. a.number == number)

  -- `findByOnboardingDocument`
  unfoldable pub find_by_onboarding_document : String → Exec (Db o) (Option (Row Account))
  find_by_onboarding_document document =
      find_one o (account_repository o) (λ a. has_document document a.onboarding)
