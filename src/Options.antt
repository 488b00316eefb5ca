-- ===== src/Options.antt =====
-- The options of a job: toro/job.py. An option that is refused with a ValueError is `none`; the text
-- of the error is left out.
pub mod Values
pub mod Checks
pub mod Record
mod Dicts
mod Again
pub mod RoundTrip
pub mod Whole
