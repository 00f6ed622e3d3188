-- ===== src/Account/Entity.antt =====
-- The account and its onboarding (src/account/entities, src/onboarding/entities).
-- Columns that the database or TypeORM fills (the id, the dates of creation, change and deletion) and
-- the joined rows of other entities are left to the engine. Amounts are in cents; a column that a
-- handler may leave undefined is an `Option`.
use api_payment.Common.{String, Option}

pub data AccountStatus : Type 0 where
  active inactive blocked : AccountStatus

pub data AccountType : Type 0 where
  main savings : AccountType

pub data OnboardingTypeAccount : Type 0 where
  pf pj : OnboardingTypeAccount

-- The registration that an account came from.
pub record Onboarding : Type 0 where
  pub client_id : String
  pub external_user_id : String
  pub register_name : String
  pub document_number : String
  pub type_account : OnboardingTypeAccount

-- An account of a client, with its onboarding joined.
pub record Account : Type 0 where
  pub external_id : String
  pub client_id : String
  pub onboarding_id : Option String
  pub onboarding : Option Onboarding
  pub status : AccountStatus
  pub branch : String
  pub number : String
  pub type : AccountType
