-- ===== src/ConsoleLogger.antt =====
-- src/olink/consolelogger.h and .cpp: the log function that prints.
use objectlink_core_cpp.Prelude.{[], ◌∷◌, ◌++◌, Str, text}
use objectlink_core_cpp.Types.{LogLevel, debug, info, warning, error}

unfoldable pub prefix : LogLevel → Str
prefix info = text "[info   ] "
prefix debug = text "[debug  ] "
prefix warning = text "[warning] "
prefix error = text "[error  ] "

-- The standard output after a message.
unfoldable pub write_log : LogLevel → Str → Str → Str
unfolding prefix
write_log level msg out = out ++ prefix level ++ msg ++ b'\n' ∷ []
