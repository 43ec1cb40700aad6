-- ===== src/Prelude/Results.antt =====
-- The HTTP exceptions that the services throw, and the results of calls that may throw.

-- BadRequestException (400), UnauthorizedException (401), ForbiddenException (403),
-- NotFoundException (404) and InternalServerErrorException (500), which stands for an error of the
-- database too; the message is left out.
pub data HttpError : Type 0 where
  bad_request unauthorized forbidden not_found internal : HttpError

pub data Result (A : Type 0) : Type 0 where
  err : HttpError → Result A
  ok : A → Result A

-- `await` of a call, and what follows it unless it throws.
module _ {A B : Type 0} where
  infixr 4 ◌>>=◌
  abbrev pub ◌>>=◌ : Result A → (A → Result B) → Result B
  err thrown >>= next = err thrown
  ok value >>= next = next value
