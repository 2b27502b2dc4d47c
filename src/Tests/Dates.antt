-- ===== src/Tests/Dates.antt =====
-- A date.
use custom_built_network_ana.Base.{pos}
use custom_built_network_ana.Time.{civil_from_unix}
use custom_built_network_ana.Time.Calendar.{IsCivil, civil_from_unix-IsCivil}

civil_from_unix-IsCivil_example : IsCivil 1786365296 (civil_from_unix (pos 1786365296))
civil_from_unix-IsCivil_example = civil_from_unix-IsCivil 1786365296
