-- ===== src/Narrator/Endings.antt =====
-- How an ending's type is read back from the value that stands for it.
use ai_saga.Common.{◌≡◌}
use ai_saga.Values.{EndingType, ending_value}
use ai_saga.Strings.{occurs}
use ai_saga.Python.{Python}
use ai_saga.Narrator.{from_string}

-- Where lower-casing leaves the value of an ending type alone, the value reads as that ending type.
pub from_string-ending_value :
    (py : Python) (e : EndingType)
    → py.lower (ending_value e) ≡ ending_value e
    → from_string py (ending_value e) ≡ e
unfolding from_string occurs ending_value
from_string-ending_value py EndingType.victory h = rw h
from_string-ending_value py EndingType.defeat h = rw h
from_string-ending_value py EndingType.neutral h = rw h
