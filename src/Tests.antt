-- ===== src/Tests.antt =====
-- Runs of the program at concrete inputs, and each theorem with hypotheses at an input that meets
-- them.
mod Sample
mod SamplePipe
mod AuthTests
mod FlowTests
mod UsersTests
mod CommonTests
mod AppTests
mod DtoTests
mod ConfigTests
